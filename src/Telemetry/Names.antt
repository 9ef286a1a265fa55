-- ===== src/Telemetry/Names.antt =====
-- The names of exporters: their keys in a registry.
use Prim.Native.Char.{Char, code}
use Prim.Native.String
use text.Mathlib.TextLemmas
use text.Mathlib.TextLemmas.{cons-append, append_assoc}
use text.Mathlib.TextEquality.{Char-path}
use goga.Prelude.{
  ◌≡◌, ◌≢◌, ◌↔◌, ◌⊎◌, refl, sym, ap, ◌∙◌, subst, inl, inr, String, Bool, true, false, Option, none,
  some, List, [], ◌∷◌, arith, Listed, Option-cases, Bool-cases, eqb, if◌then◌else◌, ◌==◌, eq_iff,
}
use goga.Prelude.Dict.{lookup}
use goga.Strings.{cut_prefix}
use goga.Registry
use goga.Registry.{Registry, Entry, GoType, Constructor}
use goga.Registry.Names.{names-registered, register-stored}
use goga.Telemetry.Settings.{Signal, traces, metrics, logs}
use goga.Telemetry.Exporters.{registry_key, stripped, registered_names, register_exporter}

cut_prefix-append : (p s : String) → cut_prefix p (String.◌++◌ p s) ≡ some s
unfolding cut_prefix
cut_prefix-append String.[] s = rw (TextLemmas.nil-append s) refl
cut_prefix-append (String.◌∷◌ c p) s = rw (cons-append c p s) ground (arith, cut_prefix-append p s)

same_code : (c d : Char) → eqb (code c) (code d) ≡ true → c ≡ d
same_code c d h = Char-path c d (ground arith)

append-cut_prefix : (p s t : String) → cut_prefix p s ≡ some t → s ≡ String.◌++◌ p t
unfolding cut_prefix
append-cut_prefix String.[] s t h = rw (TextLemmas.nil-append t) (ground arith)
append-cut_prefix (String.◌∷◌ c p) String.[] t h = cc
append-cut_prefix (String.◌∷◌ c p) (String.◌∷◌ d s) t h =
    elim (Bool-cases (eqb (code c) (code d))) [
      | inr other ↦ ground arith
      | inl same ↦
          let tails = append-cut_prefix p s t (ground arith) in
          rw (cons-append c p t) (λ i. String.◌∷◌ (sym (same_code c d same) i) (tails i))
    ]

shape :
    (p key : String) (keys : List String) (after : String)
    → cut_prefix p key ≡ some after
    → stripped p (key ∷ keys) ≡ after ∷ stripped p keys
unfolding stripped
shape p key keys after cut = ground arith

Listed-stripped :
    (p name : String) (keys : List String)
    → Listed name (stripped p keys) ↔ Listed (String.◌++◌ p name) keys
unfolding stripped
Listed-stripped p name [] = (λ m. m, λ m. m)
Listed-stripped p name (key ∷ keys) = elim (Option-cases (cut_prefix p key)) [
  | inl other ↦ (
    λ m. inr ((Listed-stripped p name keys).0 (ground arith)),
    λ m. elim m [
      | inl e ↦ ground (arith, cut_prefix-append p name)
      | inr n ↦ let later = (Listed-stripped p name keys).1 n in ground arith
    ],
  )
  | inr (after, cut) ↦ (
    λ m. elim (subst (Listed name) (shape p key keys after cut) m) [
      | inl e ↦ inl (ap (λ s. String.◌++◌ p s) e ∙ sym (append-cut_prefix p key after cut))
      | inr n ↦ inr ((Listed-stripped p name keys).0 n)
    ],
    λ m. elim m [
      | inl e ↦
          let same : name ≡ after = ground (arith, cut_prefix-append p name) in
          subst (Listed name) (sym (shape p key keys after cut)) (inl same)
      | inr n ↦
          subst (Listed name) (sym (shape p key keys after cut))
            (inr ((Listed-stripped p name keys).1 n))
    ],
  )
]

key_split :
    (signal : Signal) (name : String)
    → String.◌++◌ (registry_key signal "") name ≡ registry_key signal name
unfolding registry_key
key_split traces name =
    append_assoc "telemetry." "trace." name
    ∙ ap (λ s. String.◌++◌ "telemetry." s) (append_assoc "trace" "." name)
key_split metrics name =
    append_assoc "telemetry." "metric." name
    ∙ ap (λ s. String.◌++◌ "telemetry." s) (append_assoc "metric" "." name)
key_split logs name =
    append_assoc "telemetry." "log." name
    ∙ ap (λ s. String.◌++◌ "telemetry." s) (append_assoc "log" "." name)

-- Two texts differ at a place that both have.
unfoldable apart : String → String → Bool
apart String.[] q = false
apart (String.◌∷◌ c p) String.[] = false
apart (String.◌∷◌ c p) (String.◌∷◌ d q) = if eqb (code c) (code d) then apart p q else true

cut_prefix-apart : (p q s : String) → apart p q ≡ true → cut_prefix p (String.◌++◌ q s) ≡ none
unfolding apart cut_prefix
cut_prefix-apart String.[] q s h = cc
cut_prefix-apart (String.◌∷◌ c p) String.[] s h = cc
cut_prefix-apart (String.◌∷◌ c p) (String.◌∷◌ d q) s h =
    rw (cons-append d q s) (elim (Bool-cases (eqb (code c) (code d))) [
      | inl same ↦ ground (arith, cut_prefix-apart p q s)
      | inr other ↦ ground arith
    ])

read_key :
    (signal : Signal) (name : String)
    → cut_prefix (registry_key signal "") (registry_key signal name) ≡ some name
read_key signal name =
    ap (cut_prefix (registry_key signal "")) (sym (key_split signal name))
    ∙ cut_prefix-append (registry_key signal "") name

no_key :
    (s t : Signal) (name : String)
    → apart (registry_key s "") (registry_key t "") ≡ true
    → cut_prefix (registry_key s "") (registry_key t name) ≡ none
no_key s t name h =
    ap (cut_prefix (registry_key s "")) (sym (key_split t name))
    ∙ cut_prefix-apart (registry_key s "") (registry_key t "") name h

apart_or_same : (s t : Signal) → (s ≡ t) ⊎ (apart (registry_key s "") (registry_key t "") ≡ true)
unfolding apart registry_key
apart_or_same traces traces = inl refl
apart_or_same metrics metrics = inl refl
apart_or_same logs logs = inl refl
apart_or_same traces metrics = inr refl
apart_or_same traces logs = inr refl
apart_or_same metrics traces = inr refl
apart_or_same metrics logs = inr refl
apart_or_same logs traces = inr refl
apart_or_same logs metrics = inr refl

-- The signal and the name are read back from a key.
pub registry_key_apart :
    (s t : Signal) (m n : String) → registry_key s m ≡ registry_key t n → (s ≡ t) × (m ≡ n)
registry_key_apart s t m n h = elim (apart_or_same s t) [
  | inr differ ↦ ground (arith, read_key s m, no_key s t n differ)
  | inl same ↦
      let moved : registry_key s m ≡ registry_key s n = h ∙ ap (λ q. registry_key q n) (sym same) in
      (same, ground (arith, read_key s m, read_key s n))
]

module _ (Any : Type 0) where
  -- A signal's exporters are listed by the names they are registered under: a name is listed exactly
  -- when the registry has an entry under the key of the signal and the name.
  pub registered_names-Listed :
      (r : Registry Any) (signal : Signal) (name : String)
      → Listed name (registered_names Any (some r) signal)
        ↔ (lookup (registry_key signal name) r.entries ≢ none)
  unfolding registered_names
  registered_names-Listed r signal name =
      let (sorted, (there, back)) = names-registered Any r (registry_key signal name) in
      let (to, from) = Listed-stripped (registry_key signal "") name (Registry.names Any r) in
      (
        λ m.
            there (subst (λ key. Listed key (Registry.names Any r)) (key_split signal name) (to m)),
        λ h. from (
            subst (λ key. Listed key (Registry.names Any r)) (sym (key_split signal name))
              (back h)),
      )

  register_exporter-register :
      (r r' : Registry Any) (port settings : GoType) (s : Signal) (name : String)
      (ctor : Option (Constructor Any))
      → register_exporter Any port (some r) s name settings ctor ≡ (some r', none)
      → Registry.register Any r (registry_key s name) port settings ctor ≡ (r', none)
  unfolding register_exporter
  register_exporter-register r r' port settings s name ctor h = elim (Bool-cases (name == "")) [
    | inl empty ↦ ground arith
    | inr named ↦
        elim (Option-cases (Registry.register Any r (registry_key s name) port settings ctor).1) [
          | inr (e, bad) ↦ ground arith
          | inl good ↦
              let first : (Registry.register Any r (registry_key s name) port settings ctor).0
                  ≡ r' =
                ground arith in
              λ i. (first i, good i)
        ]
  ]

  -- When an exporter's registration succeeds, the names listed for a signal are the ones before, and
  -- for the signal that it is registered for also its name. Signals do not interfere.
  pub register_exporter_adds :
      (r r' : Registry Any) (port settings : GoType) (s : Signal) (name : String)
      (ctor : Option (Constructor Any))
      → register_exporter Any port (some r) s name settings ctor ≡ (some r', none)
      → (t : Signal) (other : String)
      → Listed other (registered_names Any (some r') t)
        ↔ (Listed other (registered_names Any (some r) t) ⊎ ((t ≡ s) × (other ≡ name)))
  register_exporter_adds r r' port settings s name ctor h t other =
      let key = registry_key s name in
      let there = registry_key t other in
      let inner : Registry.register Any r key port settings ctor ≡ (r', none) =
        register_exporter-register r r' port settings s name ctor h in
      let (c, is_given, decode_kept, now) = register-stored Any r r' key port settings ctor inner in
      let (old_to, old_from) = registered_names-Listed r t other in
      let (new_to, new_from) = registered_names-Listed r' t other in
      elim (Bool-cases (key == there)) [
        | inl same ↦
            let (signals, names) = registry_key_apart s t name other ((eq_iff key there).0 same) in
            (λ m. inr (sym signals, sym names), λ o. new_from (ground (arith, now there)))
        | inr differ ↦ (
          λ m. inl (old_from (λ absent. new_to m (ground (arith, now there)))),
          λ o. elim o [
            | inl m ↦ new_from (λ absent. old_to m (ground (arith, now there)))
            | inr (signals, names) ↦
                let same : key ≡ there = λ i. registry_key (sym signals i) (sym names i) in
                ground (arith, (eq_iff key there).1 same)
          ],
        )
      ]
