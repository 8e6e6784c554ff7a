-- ===== src/Persistence/Ingestion/Messages/Words.antt =====
-- Splitting and joining words.
use signalproject.Prelude.{
  ℕ, suc, ◌+◌, ◌≤◌, ◌≡◌, true, false, arith, List, [], ◌∷◌, ◌++◌, length, length-append, All,
  All-append, Bool-cases, inl, inr, refl, ap, sym, ◌∙◌,
}
use mathlib.Core.List.{append-nil, append_assoc}
use signalproject.Prelude.Text.{Text, is_empty}
use signalproject.Persistence.Ingestion.Messages.{
  is_space, is_printable, is_break, clean, flush, split_onto, join,
}

abbrev pub IsSolid : Text → Type 0
IsSolid w = All (λ c. is_space c ≡ false) w

-- A word has a character, and none that splits.
abbrev pub IsWord : Text → Type 0
IsWord w = (is_empty w ≡ false) × IsSolid w

flush-IsWord : (w : Text) (ws : List Text) → IsSolid w → All IsWord ws → All IsWord (flush w ws)
flush-IsWord [] ws h k = k
flush-IsWord (c ∷ cs) ws h k = ((refl, h), k)

pub split_onto-IsWord : (w t : Text) → IsSolid w → All IsWord (split_onto w t)
unfolding split_onto
split_onto-IsWord w [] h = flush-IsWord w [] h tt
split_onto-IsWord w (c ∷ cs) h = elim (Bool-cases (is_space c)) [
  | inl e ↦ rw e (flush-IsWord w (split_onto [] cs) h (split_onto-IsWord [] cs tt))
  | inr e ↦ rw e (
      split_onto-IsWord (w ++ c ∷ []) cs
        (All-append (λ (d : ℕ). is_space d ≡ false) w (c ∷ []) h (e, tt)))
]

-- Solid text only lengthens the word that is read.
split_onto-solid : (w v t : Text) → IsSolid v → split_onto w (v ++ t) ≡ split_onto (w ++ v) t
unfolding split_onto
split_onto-solid w [] t h = ap (λ (x : Text). split_onto x t) (sym (append-nil w))
split_onto-solid w (c ∷ v) t h = rw h.0 (
    split_onto-solid (w ++ c ∷ []) v t h.1
    ∙ ap (λ (x : Text). split_onto x t) (append_assoc w (c ∷ []) v))

split_onto-space : (w t : Text) → split_onto w (32 ∷ t) ≡ flush w (split_onto [] t)
unfolding split_onto
split_onto-space w t = refl

split_onto-nil : (w : Text) → split_onto w [] ≡ flush w []
unfolding split_onto
split_onto-nil w = refl

flush-word : (w : Text) (ws : List Text) → is_empty w ≡ false → flush w ws ≡ w ∷ ws
flush-word [] ws h = cc
flush-word (c ∷ cs) ws h = refl

-- Splitting undoes joining.
pub split_onto-join : (ws : List Text) → All IsWord ws → split_onto [] (join ws) ≡ ws
split_onto-join [] h = split_onto-nil []
split_onto-join (w ∷ []) h =
    ap (λ (x : Text). split_onto [] x) (sym (append-nil w))
    ∙ split_onto-solid [] w [] h.0.1
    ∙ split_onto-nil w
    ∙ flush-word w [] h.0.0
split_onto-join (w ∷ v ∷ ws) h =
    split_onto-solid [] w (32 ∷ join (v ∷ ws)) h.0.1
    ∙ split_onto-space w (join (v ∷ ws))
    ∙ ap (flush w) (split_onto-join (v ∷ ws) h.1)
    ∙ flush-word w (v ∷ ws) h.0.0

-- Joining what was split is no longer than the text.
length-join-flush :
    (w : Text) (ws : List Text) → length (join (flush w ws)) ≤ suc (length w + length (join ws))
length-join-flush [] ws = omega arith
length-join-flush (c ∷ cs) [] = omega arith
length-join-flush (c ∷ cs) (v ∷ ws) = omega (arith, length-append (c ∷ cs) (32 ∷ join (v ∷ ws)))

pub length-join-split_onto : (w t : Text) → length (join (split_onto w t)) ≤ length w + length t
unfolding split_onto
length-join-split_onto [] [] = omega arith
length-join-split_onto (d ∷ ds) [] = omega arith
length-join-split_onto w (c ∷ cs) = elim (Bool-cases (is_space c)) [
  | inl e ↦
      rw e (omega (arith, length-join-flush w (split_onto [] cs), length-join-split_onto [] cs))
  | inr e ↦ rw e (omega (arith, length-join-split_onto (w ++ c ∷ []) cs, length-append w (c ∷ [])))
]

-- A space at the end adds nothing.
pub split_onto-trailing : (w t : Text) → split_onto w (t ++ 32 ∷ []) ≡ split_onto w t
unfolding split_onto
split_onto-trailing w [] = refl
split_onto-trailing w (c ∷ cs) = elim (Bool-cases (is_space c)) [
  | inl e ↦ rw e (ap (flush w) (split_onto-trailing [] cs))
  | inr e ↦ rw e (split_onto-trailing (w ++ c ∷ []) cs)
]

abbrev pub IsPrintable : Text → Type 0
IsPrintable t = All (λ c. is_printable c ≡ true) t

pub clean-IsPrintable : (t : Text) → IsPrintable (clean t)
unfolding clean
clean-IsPrintable [] = tt
clean-IsPrintable (c ∷ cs) = elim (Bool-cases (is_break c)) [
  | inl e ↦ rw e (refl, clean-IsPrintable cs)
  | inr e ↦ elim (Bool-cases (is_printable c)) [
    | inl p ↦ rw (e, p) (p, clean-IsPrintable cs)
    | inr p ↦ rw (e, p) (clean-IsPrintable cs)
  ]
]

not_break : (c : ℕ) → is_printable c ≡ true → is_break c ≡ false
not_break c h = ground arith

-- Printable text is clean already.
pub clean-printable : (t : Text) → IsPrintable t → clean t ≡ t
unfolding clean
clean-printable [] h = refl
clean-printable (c ∷ cs) h =
    rw (not_break c h.0, h.0) (ap (λ (x : Text). c ∷ x) (clean-printable cs h.1))

flush-All :
    (P : ℕ → Type 0) (w : Text) (ws : List Text)
    → All P w
    → All (All P) ws
    → All (All P) (flush w ws)
flush-All P [] ws h k = k
flush-All P (c ∷ cs) ws h k = (h, k)

split_onto-All : (P : ℕ → Type 0) (w t : Text) → All P w → All P t → All (All P) (split_onto w t)
unfolding split_onto
split_onto-All P w [] h k = flush-All P w [] h tt
split_onto-All P w (c ∷ cs) h k = elim (Bool-cases (is_space c)) [
  | inl e ↦ rw e (flush-All P w (split_onto [] cs) h (split_onto-All P [] cs tt k.1))
  | inr e ↦ rw e (split_onto-All P (w ++ c ∷ []) cs (All-append P w (c ∷ []) h (k.0, tt)) k.1)
]

join-All : (P : ℕ → Type 0) (ws : List Text) → P 32 → All (All P) ws → All P (join ws)
join-All P [] s h = tt
join-All P (w ∷ []) s h = h.0
join-All P (w ∷ v ∷ ws) s h = All-append P w (32 ∷ join (v ∷ ws)) h.0 (s, join-All P (v ∷ ws) s h.1)

-- What was clean stays clean when its words are joined by spaces.
pub join-split_onto-IsPrintable : (t : Text) → IsPrintable t → IsPrintable (join (split_onto [] t))
join-split_onto-IsPrintable t h =
    join-All (λ c. is_printable c ≡ true) (split_onto [] t) refl
      (split_onto-All (λ c. is_printable c ≡ true) [] t tt h)
