-- ===== src/Config/Keys/Laws.antt =====
-- The parents of a key are the texts that the key continues with a delimiter.
use Prim.Native.Char.{Char, code}
use Prim.Native.String
use text.Mathlib.TextLemmas.{
  nil-append, cons-append, append_assoc, append-nil, append_cancel_left, nil≢cons,
}
use text.Mathlib.TextEquality.{Char-path}
use native.Mathlib.Decide.{dec_lt}
use goga.Prelude.{
  ℕ, zero, suc, ◌+◌, ◌-◌, ◌≤◌, ◌<◌, ◌≡◌, refl, sym, ap, ◌↔◌, ◌≢◌, inl, inr, String, List, [], ◌∷◌,
  ◌++◌, length, Listed, arith, eqb, ltb, false, ◌∙◌, Bool-cases,
}
use goga.Config.Keys.{delim, after_delim, push_head, split, join, take, prefixes, parent_paths}

abbrev IsCons : List String → Type 0
IsCons parts = (part : String) × (rest : List String) × (parts ≡ part ∷ rest)

ltb-false : (a b : ℕ) → ltb a b ≡ false → b ≤ a
ltb-false a b h = ground arith

le-ltb : (a b : ℕ) → b ≤ a → ltb a b ≡ false
le-ltb a b h = ground arith

push_head-IsCons : (c : Char) (parts : List String) → IsCons (push_head c parts)
push_head-IsCons c [] = (_, _, refl)
push_head-IsCons c (part ∷ parts) = (_, _, refl)

split-IsCons : (key : String) → IsCons (split key)
unfolding split
split-IsCons String.[] = ("", [], refl)
split-IsCons (String.◌∷◌ c s) = elim (Bool-cases (eqb (code c) (code delim))) [
  | inl dot ↦ ("", split s, rw dot)
  | inr other ↦ rw other (push_head-IsCons c (split s))
]

join-push_head :
    (c : Char) (parts : List String)
    → IsCons parts
    → join (push_head c parts) ≡ String.◌∷◌ c (join parts)
unfolding join
join-push_head c [] h = cc
join-push_head c (part ∷ []) h = refl
join-push_head c (part ∷ next ∷ parts) h = cons-append c part _

join-cons :
    (part : String) (parts : List String)
    → IsCons parts
    → join (part ∷ parts) ≡ String.◌++◌ part (after_delim (join parts))
unfolding join
join-cons part [] h = cc
join-cons part (next ∷ parts) h = refl

pub join-split : (key : String) → join (split key) ≡ key
unfolding split
join-split String.[] = unfold join in refl
join-split (String.◌∷◌ c s) = elim (Bool-cases (eqb (code c) (code delim))) [
  | inl dot ↦
      rw (dot, join-cons "" (split s) (split-IsCons s), join-split s, nil-append)
        (ap (λ d. String.◌∷◌ d s) (Char-path delim c (ground arith)))
  | inr other ↦ rw (other, join-push_head c (split s) (split-IsCons s), join-split s)
]

push_head-append :
    (c : Char) (xs ys : List String) → IsCons xs → push_head c (xs ++ ys) ≡ push_head c xs ++ ys
push_head-append c [] ys h = cc
push_head-append c (x ∷ xs) ys h = refl

split-dotted : (p r : String) → split (String.◌++◌ p (after_delim r)) ≡ split p ++ split r
unfolding split
split-dotted String.[] r = rw nil-append
split-dotted (String.◌∷◌ c p) r = rw cons-append (elim (Bool-cases (eqb (code c) (code delim))) [
  | inl dot ↦ rw (dot, split-dotted p r)
  | inr other ↦
      rw (other, split-dotted p r) (push_head-append c (split p) (split r) (split-IsCons p))
])

-- A proper prefix of the parts, a delimiter, and what the other parts join to.
join-take :
    (parts : List String) (i : ℕ)
    → 1 ≤ i
    → i < length parts
    → (r : String) × (join parts ≡ String.◌++◌ (join (take i parts)) (after_delim r))
unfolding join take
join-take [] i h k = absurd (omega arith)
join-take (part ∷ []) i h k = absurd (omega arith)
join-take (part ∷ next ∷ parts) zero h k = absurd (omega arith)
join-take (part ∷ next ∷ parts) (suc zero) h k = (join (next ∷ parts), refl)
join-take (part ∷ next ∷ parts) (suc (suc i)) h k =
    let (r, e) = join-take (next ∷ parts) (suc i) (omega arith) (omega arith) in
    (r, rw e (rw (append_assoc part) (rw cons-append)))

take-append : (xs ys : List String) → take (length xs) (xs ++ ys) ≡ xs
unfolding take
take-append [] ys = refl
take-append (x ∷ xs) ys = rw (take-append xs ys)

prefixes-Listed :
    (parts : List String) (i rounds j : ℕ)
    → i ≤ j
    → j < i + rounds
    → Listed (join (take j parts)) (prefixes parts i rounds)
unfolding prefixes
prefixes-Listed parts i zero j h k = absurd (omega arith)
prefixes-Listed parts i (suc rounds) j h k = elim (dec_lt i j) [
  | yes later ↦ inr (prefixes-Listed parts (i + 1) rounds j (omega arith) (omega arith))
  | no here ↦ inl (ap (λ n. join (take n parts)) (omega arith))
]

Listed-prefixes :
    (p : String) (parts : List String) (i rounds : ℕ)
    → Listed p (prefixes parts i rounds)
    → (j : ℕ) × (i ≤ j) × (j < i + rounds) × (p ≡ join (take j parts))
unfolding prefixes
Listed-prefixes p parts i zero m = elim m [ ]
Listed-prefixes p parts i (suc rounds) (inl e) = (i, omega arith, omega arith, e)
Listed-prefixes p parts i (suc rounds) (inr m) =
    let (j, low, high, e) = Listed-prefixes p parts (i + 1) rounds m in
    (j, omega arith, omega arith, e)

-- `p` is a proper prefix path of `key`: the key goes on after it with a delimiter.
abbrev pub IsParent : String → String → Type 0
IsParent p key = (r : String) × (key ≡ String.◌++◌ p (after_delim r))

Listed-parent_paths : (p key : String) → Listed p (parent_paths key) → IsParent p key
unfolding parent_paths
Listed-parent_paths p key m = elim (Bool-cases (ltb (length (split key)) 2)) [
  | inl few ↦ absurd (rw few at m)
  | inr many ↦
      let (j, low, high, e) =
        Listed-prefixes p (split key) 1 (length (split key) - 1) (rw many at m) in
      let (r, whole) =
        join-take (split key) j low (omega (arith, ltb-false (length (split key)) 2 many)) in
      (r, sym (join-split key) ∙ rw e whole)
]

split-pos : (key : String) → 1 ≤ length (split key)
split-pos key = let (part, rest, e) = split-IsCons key in rw e (omega arith)

length-append : (xs ys : List String) → length (xs ++ ys) ≡ length xs + length ys
length-append [] ys = omega arith
length-append (x ∷ xs) ys = omega (arith, length-append xs ys)

-- The prefix path of `p` among the prefixes of `p`'s parts and `ys`.
prefixes-left :
    (p : String) (ys : List String)
    → 1 ≤ length ys
    → Listed p (prefixes (split p ++ ys) 1 (length (split p ++ ys) - 1))
prefixes-left p ys h =
    rw (take-append (split p) ys, join-split p) at
      (prefixes-Listed (split p ++ ys) 1 (length (split p ++ ys) - 1) (length (split p))
        (split-pos p) (omega (arith, length-append (split p) ys, split-pos p)))

parent_paths-dotted : (p r : String) → Listed p (parent_paths (String.◌++◌ p (after_delim r)))
unfolding parent_paths
parent_paths-dotted p r =
    let ys = split r in
    rw
      (
        split-dotted p r,
        le-ltb (length (split p ++ ys)) 2
            (omega (arith, length-append (split p) ys, split-pos p, split-pos r)),
      )
      (prefixes-left p ys (split-pos r))

-- A path is among the parents of a key exactly when the key is that path, a delimiter and a rest.
pub parent_paths_iff : (p key : String) → Listed p (parent_paths key) ↔ IsParent p key
parent_paths_iff p key = (Listed-parent_paths p key, λ (r, e). rw e (parent_paths-dotted p r))

dotted_longer : (p r : String) → p ≢ String.◌++◌ p (after_delim r)
dotted_longer p r e = nil≢cons (append_cancel_left p "" (after_delim r) (append-nil p ∙ e))

-- No key is its own parent.
pub not-own_parent : (key : String) → ¬ Listed key (parent_paths key)
not-own_parent key m = let (r, e) = Listed-parent_paths key key m in dotted_longer key r e
