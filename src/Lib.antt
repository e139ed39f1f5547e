-- ===== src/Lib.antt =====
-- A model of io-react-native-wallet, a React Native library with which a wallet obtains, verifies
-- and presents credentials. Paths are from the repository's root.
--
-- The parts of the program and the files that model them:
--
--   src/utils/errors.ts, error-codes.ts and the errors.ts of the flows: Errors.antt (the classes and
--     their messages), Errors/Builder.antt (ResponseErrorBuilder), Errors/Handlers.antt (the four
--     handlers that map a status to a code), Errors/Codes.antt (lemmas).
--   src/utils/misc.ts: Http.antt (hasStatusOrThrow, parseRawHttpResponse), with lemmas in
--     Http/Checked.antt and Http/Answered.antt; Random.antt (generateRandomAlphaNumericString).
--   src/utils/crypto.ts and example/src/utils/crypto.ts: Keys.antt. src/utils/par.ts: Par.antt.
--     src/utils/decoder.ts: FormPost.antt.
--   src/client, src/wallet-instance and src/wallet-instance-attestation/issuing.ts: Provider.antt.
--   src/utils/jwk.ts: Jwk.antt. src/utils/dpop.ts and src/utils/pop.ts: Tokens.antt.
--   src/sd-jwt: SdJwt/Types.antt (the schemas), SdJwt/Decode.antt (decodeDisclosure, decode),
--     SdJwt/Disclose.antt (disclose), SdJwt/Verify.antt (verify, verifyDisclosure),
--     SdJwt/Values.antt (getValueFromDisclosures), with their lemmas under SdJwt/Laws.
--   src/trust: Trust/Types.antt and Trust/Entities.antt (the schemas), Trust/Chain.antt
--     (validateTrustChain, renewTrustChain, verifyTrustChain and the fetching functions), with their
--     lemmas in Trust/Chain/Links.antt and Trust/Chain/Renewal.antt. Trust/Messages.antt has the messages
--     of an issuer for an error, of src/utils/errors.ts.
--   src/credential/issuance: Credential/Issuer.antt (step 2), Credential/Select.antt (the choices of
--     step 3 and the authorization response of step 4), Credential/Authorize.antt (steps 3 and 4),
--     Credential/Access.antt (step 5), Credential/Obtain.antt (step 6), Credential/Parse.antt (step 7).
--   src/credential/status: Credential/Status.antt.
--   src/credential/presentation: Presentation.antt (the request object and the choice of a key).
--   src/wallet-instance-attestation and src/credential/trustmark: Wallet.antt; src/utils/string.ts:
--     Obfuscate.antt.
--   example/src/utils/credential.ts: Flow.antt, the flows that compose the steps.
--   example/src/utils/integrity.ts: Integrity.antt. example/src/utils/fetch.ts: Fetch.antt.
--   example/src/thunks: Thunks.antt, with Thunks/Login.antt (the PID) and Thunks/Instance.antt, and
--     lemmas in Thunks/Kept.antt, Renewal.antt, Stored.antt and Revoked.antt.
--   example/src/store: Store.antt (the types and the actions), Store/Slices.antt and Store/Pid.antt
--     (the reducers), Store/Root.antt (the whole store and its runs), with lemmas beside them.
--
-- How they interact: issuance takes its configuration from a trust chain's entities, obtains a
-- credential over HTTP, and verifies it with the SD-JWT functions; the errors of all requests go
-- through the status check and the handlers.
--
-- How the code is rendered. A function that may throw returns a `Result`, whose error is an `Error`
-- of Errors.antt. An async function is a function of a `World` (Promise.antt), which records the
-- requests that were sent, the number of random values drawn and the calls on the key store; one that
-- neither sends nor draws is a plain `Result`. `Promise.all` and a `return` of a promise inside `try` are
-- modelled in Promise.antt with the order in which rejections surface. JavaScript values are the type `Value`,
-- whose numbers are natural numbers; objects are association lists in the order of their entries,
-- without the keys that every object inherits. Schemas are parsers made of the combinators of
-- Zod.antt.
--
-- What the program calls and does not implement is a parameter: the record `Host` of Host.antt has
-- the JWT library, base64, hashes, JSON, urls, identifiers, randomness and `fetch`, which may answer
-- a request by what was sent before; the record `Zod` has the combinators of the schema library; a
-- `CryptoContext` has the key of a device. Theorems hold for every such parameter; the only
-- hypotheses on them are `EmptyIsRefused`, that the empty text does not decode to a disclosure, that
-- sorting by a random comparison keeps the elements, that the listener for the redirect only adds to
-- what was sent, drawn and asked of the key store, that the random source stays below its bound,
-- `CallsBelow`, that the generated client calls its fetcher below its base url, and `IsToolkit`, what Redux Toolkit is documented to do with a thunk and with a memoized selector.
-- The tests use the host of Sample.antt, which looks up tokens, texts and answers in tables.
--
-- Loops over lists are structural recursion. The only fuel is that of `show` (Base/Text.antt), which
-- prints a natural number: `n + 1` rounds are given for `n`, and each round divides by ten.
--
-- Promise/Grows.antt says of a step that it only adds to the requests, the draws and the calls on the
-- key store; Credential/Grows.antt and Flow/Grows.antt have this for the steps of the issuance, so that
-- what a flow read and generated can be placed in its run. Where a request or a signed token is
-- described, its fields are written out, and the functions that make it are not used.
--
-- The context of a device key is a function of the calls on the key store (Keys.antt): it answers as
-- of the time of its use, so a flow asks for it right before each step. The optional `appFetch` of a
-- function and the built-in fetch are the same parameter. A store is a state with one reducer for each
-- slice; an action of a thunk has the argument and the payload that a reducer reads.
--
-- A thunk is a function of an `App` (Thunks.antt): the store, what the memoized selector remembers,
-- and the world; the clock is an argument.
--
-- Not modelled: the authorization response of a presentation, the PID object, what the store persists
-- and reloads, and the screens. The generated client of the wallet provider (`Generated` in
-- Provider.antt), the native integrity functions (`NativeIntegrity` in Integrity.antt) and the listener
-- for the redirect of the browser are parameters. The value of a path parameter has no `$`, which
-- String.replace reads as a pattern. An array as the reason of an error is outside its declared type,
-- and is printed as JSON. The two checks of a credential that run under one Promise.all run in order,
-- so of two failures the first one is reported.
pub mod Base
pub mod Value
pub mod Errors
pub mod Zod
pub mod Jwk
mod Sample
pub mod Host
pub mod Promise
pub mod Http
pub mod Tokens
pub mod Random
pub mod SdJwt
pub mod Trust
pub mod Credential
pub mod Obfuscate
pub mod Wallet
pub mod Par
pub mod FormPost
pub mod Presentation
pub mod Provider
pub mod Keys
pub mod Flow
pub mod Integrity
pub mod Thunks
pub mod Fetch
pub mod Store
