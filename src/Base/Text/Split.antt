-- ===== src/Base/Text/Split.antt =====
-- How `split`, `join` and the last character fit together.
use Prim.Native.Char.{Char}
use Prim.Native.String.{String, [], ◌∷◌}
use mathlib.Core.Path.{◌≡◌, refl, ap, ◌∙◌, sym}
use mathlib.Core.Bool.{true, false}
use mathlib.Core.Logic.{inl, inr, ◌≢◌}
use mathlib.Core.List.{List, [], ◌∷◌}
use native.Mathlib.Omega.{arith}
use text.Mathlib.TextLemmas.{nil-append, cons-append, cons-ne-nil}
use io_react_native_wallet_i.Base.Tests.{Bool-cases}
use io_react_native_wallet_i.Base.Lists.{All}
use io_react_native_wallet_i.Base.Text.{
  ◌<>◌, same_char, same_char→eq, same_char_self, on_head, split, join, ends_with, has_char,
}

-- The text does not hold the separator.
abbrev pub IsFree : Char → String → Type 0
IsFree sep s = has_char sep s ≡ false

join-nil_head :
    (sep : String) (p : String) (ps : List String)
    → join sep ("" ∷ (p ∷ ps)) ≡ sep <> join sep (p ∷ ps)
unfolding join
join-nil_head sep p ps = nil-append _

join-on_head :
    (sep : String) (c : Char) (p : String) (ps : List String)
    → join sep ((c ∷ p) ∷ ps) ≡ (c ∷ join sep (p ∷ ps))
unfolding join
join-on_head sep c p [] = refl
join-on_head sep c p (q ∷ ps) = cons-append c p _

split-same :
    (sep c : Char) (s : String) → same_char c sep ≡ true → split sep (c ∷ s) ≡ "" ∷ split sep s
unfolding split
split-same sep c s h = rw h

split-other :
    (sep c : Char) (s : String)
    → same_char c sep ≡ false
    → split sep (c ∷ s) ≡ on_head c (split sep s)
unfolding split
split-other sep c s h = rw h

-- `split` returns at least one part.
pub split_cases :
    (sep : Char) (s : String) → (p : String) × (ps : List String) × (split sep s ≡ p ∷ ps)
split_cases sep [] = ("", [], unfold split in refl)
split_cases sep (c ∷ s) =
    let (p, ps, e) = split_cases sep s in
    elim (Bool-cases (same_char c sep)) [
      | inl h ↦ ("", p ∷ ps, split-same sep c s h ∙ ap (λ x. "" ∷ x) e)
      | inr h ↦ ((c ∷ p), ps, split-other sep c s h ∙ ap (on_head c) e)
    ]

-- Joining the parts of a text gives the text.
pub join-split : (sep : Char) (s : String) → join (sep ∷ []) (split sep s) ≡ s
join-split sep [] = unfold split join in refl
join-split sep (c ∷ s) =
    let (p, ps, e) = split_cases sep s in
    let ih : join (sep ∷ []) (p ∷ ps) ≡ s = rw e at (join-split sep s) in
    elim (Bool-cases (same_char c sep)) [
      | inl h ↦ rw (
        split-same sep c s h,
        e,
        join-nil_head,
        ih,
        cons-append,
        nil-append,
        same_char→eq c sep h,
      )
      | inr h ↦ rw (split-other sep c s h, e, join-on_head, ih)
    ]

IsFree-cons :
    (sep c : Char) (p : String) → same_char c sep ≡ false → IsFree sep p → IsFree sep (c ∷ p)
unfolding has_char
IsFree-cons sep c p h k = ground arith

-- No part of a text holds the separator.
pub split-IsFree : (sep : Char) (s : String) → All (IsFree sep) (split sep s)
split-IsFree sep [] = unfold split has_char in (refl, tt)
split-IsFree sep (c ∷ s) =
    let (p, ps, e) = split_cases sep s in
    let ih : All (IsFree sep) (p ∷ ps) = rw e at (split-IsFree sep s) in
    elim (Bool-cases (same_char c sep)) [
      | inl h ↦ rw (split-same sep c s h, e) (unfold has_char in refl, ih)
      | inr h ↦ rw (split-other sep c s h, e) (IsFree-cons sep c p h ih.0, ih.1)
    ]

split-free : (sep : Char) (s : String) → IsFree sep s → split sep s ≡ s ∷ []
split-free sep [] h = unfold split in refl
split-free sep (c ∷ s) h =
    let (differ, later) : (same_char c sep ≡ false) × IsFree sep s =
      unfold has_char in ground arith in
    rw (split-other sep c s differ, split-free sep s later)

split-append :
    (sep : Char) (p s : String)
    → IsFree sep p
    → split sep (p <> ((sep ∷ []) <> s)) ≡ p ∷ split sep s
split-append sep [] s h =
    rw (nil-append, cons-append, nil-append) (split-same sep sep s (same_char_self sep))
split-append sep (c ∷ p) s h =
    let (differ, later) : (same_char c sep ≡ false) × IsFree sep p =
      unfold has_char in ground arith in
    rw (cons-append, split-other sep c _ differ, split-append sep p s later)

-- Splitting joined parts gives the parts back, where none of them holds the separator.
pub split-join :
    (sep : Char) (p : String) (ps : List String)
    → All (IsFree sep) (p ∷ ps)
    → split sep (join (sep ∷ []) (p ∷ ps)) ≡ p ∷ ps
unfolding join
split-join sep p [] (h, _) = split-free sep p h
split-join sep p (q ∷ ps) (h, hs) =
    split-append sep p _ h ∙ ap (λ x. p ∷ x) (split-join sep q ps hs)

ends_with-cons : (c d : Char) (s : String) → s ≢ "" → ends_with c (d ∷ s) ≡ ends_with c s
unfolding ends_with
ends_with-cons c d [] h = absurd (h refl)
ends_with-cons c d (e ∷ s) h = refl

append-ne-nil : (s t : String) → t ≢ "" → s <> t ≢ ""
append-ne-nil [] t h e = h (sym (nil-append t) ∙ e)
append-ne-nil (c ∷ s) t h e = cons-ne-nil c (s <> t) (sym (cons-append c s t) ∙ e)

ends_with-append : (c : Char) (s t : String) → t ≢ "" → ends_with c (s <> t) ≡ ends_with c t
ends_with-append c [] t h = rw nil-append
ends_with-append c (d ∷ s) t h =
    rw (cons-append, ends_with-cons c d _ (append-ne-nil s t h)) (ends_with-append c s t h)

ends_with-free : (c : Char) (s : String) → IsFree c s → ends_with c s ≡ false
unfolding ends_with has_char
ends_with-free c [] h = refl
ends_with-free c (d ∷ []) h = ground arith
ends_with-free c (d ∷ (e ∷ s)) h = ends_with-free c (e ∷ s) (ground arith)

join-ne-nil : (sep p : String) (ps : List String) → p ≢ "" → join sep (p ∷ ps) ≢ ""
unfolding join
join-ne-nil sep p [] h = h
join-ne-nil sep [] (q ∷ ps) h = absurd (h refl)
join-ne-nil sep (c ∷ p) (q ∷ ps) h = λ e. cons-ne-nil c _ (sym (cons-append c p _) ∙ e)

-- Joined parts do not end in the separator, where no part holds it and the parts behind the first
-- are not empty.
pub ends_with-join :
    (sep : Char) (p : String) (ps : List String)
    → All (IsFree sep) (p ∷ ps)
    → All (λ q. q ≢ "") ps
    → ends_with sep (join (sep ∷ []) (p ∷ ps)) ≡ false
unfolding join
ends_with-join sep p [] (h, _) k = ends_with-free sep p h
ends_with-join sep p (q ∷ ps) (h, hs) (k, ks) =
    let rest : join (sep ∷ []) (q ∷ ps) ≢ "" = join-ne-nil (sep ∷ []) q ps k in
    ends_with-append sep p _ (append-ne-nil (sep ∷ []) _ rest)
    ∙ ends_with-append sep (sep ∷ []) _ rest
    ∙ ends_with-join sep q ps hs ks
