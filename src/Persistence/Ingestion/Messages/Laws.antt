-- ===== src/Persistence/Ingestion/Messages/Laws.antt =====
-- When a sanitized message is accepted.
use signalproject.Prelude.{
  bool_eq, zero, Bool, ℕ, suc, ◌≤◌, ◌<◌, ◌≡◌, true, false, arith, [], ◌∷◌, ◌++◌, length,
  length-append, length-take, take, take_all, All, refl, ap, sym, ◌∙◌, ok, err, value_error, ltb,
  Bool-cases, inl, inr, subst,
}
use signalproject.Prelude.Text.{Text, is_empty, text_eq, text_eq_iff}
use signalproject.Persistence.Ingestion.Policy.{WorkErrorCategory, is_retryable}
use signalproject.Persistence.Ingestion.Messages.{
  clean, split_onto, join, normalize, sanitize_work_error_message, work_error_post_init,
}
use signalproject.Persistence.Ingestion.Messages.Words.{
  IsPrintable, split_onto-IsWord, split_onto-join, length-join-split_onto, split_onto-trailing,
  clean-IsPrintable, clean-printable, join-split_onto-IsPrintable,
}

-- Normalizing twice is normalizing once.
pub normalize_idem : (m : Text) → normalize (normalize m) ≡ normalize m
unfolding normalize
normalize_idem m =
    ap (λ (t : Text). join (split_onto [] t))
      (clean-printable (join (split_onto [] (clean m)))
        (join-split_onto-IsPrintable (clean m) (clean-IsPrintable m)))
    ∙ ap join (split_onto-join (split_onto [] (clean m)) (split_onto-IsWord [] (clean m) tt))

take-All : (P : ℕ → Type 0) (n : ℕ) (t : Text) → All P t → All P (take n t)
take-All P zero t h = tt
take-All P (suc n) [] h = tt
take-All P (suc n) (c ∷ cs) h = (h.0, take-All P n cs h.1)

-- A sanitized message has 1024 characters at most, and every one is printable.
pub sanitize_bounded :
    (m : Text)
    → (length (sanitize_work_error_message m) ≤ 1024) × IsPrintable (sanitize_work_error_message m)
unfolding sanitize_work_error_message normalize
sanitize_bounded m = (
  omega (arith, length-take 1024 (join (split_onto [] (clean m)))),
  take-All _ 1024 _ (join-split_onto-IsPrintable (clean m) (clean-IsPrintable m)),
)

sanitize_short :
    (m : Text) → length (normalize m) ≤ 1024 → sanitize_work_error_message m ≡ normalize m
unfolding sanitize_work_error_message
sanitize_short m h = take_all 1024 (normalize m) h

-- Where the text that is left after normalizing is not cut and not empty, the sanitized message is
-- accepted: a WorkError with it and with the flag of its category passes its own validation.
pub sanitized_accepted :
    (category : WorkErrorCategory) (m : Text)
    → length (normalize m) ≤ 1024
    → is_empty (normalize m) ≡ false
    → work_error_post_init (record {
      category = category;
      message = sanitize_work_error_message m;
      retryable = is_retryable category;
    })
      ≡ ok (record {
        category = category;
        message = sanitize_work_error_message m;
        retryable = is_retryable category;
      })
unfolding work_error_post_init
sanitized_accepted category m short some_left =
    let first = sanitize_short m short in
    let again : sanitize_work_error_message (normalize m) ≡ normalize m =
      sanitize_short (normalize m) (omega (arith, ap length (normalize_idem m)))
      ∙ normalize_idem m in
    let fits : ltb 1024 (length (normalize m)) ≡ false = ground arith in
    rw (
      first,
      again,
      some_left,
      fits,
      (text_eq_iff (normalize m) (normalize m)).1 refl,
      bool_eq-refl (is_retryable category),
    )
  where
    bool_eq-refl : (b : Bool) → bool_eq b b ≡ true
    bool_eq-refl true = refl
    bool_eq-refl false = refl

take-middle : (a : Text) (c : ℕ) (b : Text) → take (suc (length a)) (a ++ (c ∷ b)) ≡ a ++ c ∷ []
take-middle [] c b = refl
take-middle (d ∷ ds) c b = ap (λ (t : Text). d ∷ t) (take-middle ds c b)

normalize-trailing :
    (a : Text) → IsPrintable (a ++ 32 ∷ []) → length (normalize (a ++ 32 ∷ [])) ≤ length a
unfolding normalize
normalize-trailing a h =
    rw (clean-printable (a ++ 32 ∷ []) h, split_onto-trailing [] a)
      (omega (arith, length-join-split_onto [] a))

ne-of-length : (s t : Text) → length t < length s → text_eq s t ≡ false
ne-of-length s t h = elim (Bool-cases (text_eq s t)) [
  | inl e ↦ absurd (omega (arith, ap length ((text_eq_iff s t).0 e)))
  | inr e ↦ e
]

is_empty-false : (t : Text) → 1 ≤ length t → is_empty t ≡ false
is_empty-false [] h = absurd (omega arith)
is_empty-false (c ∷ cs) h = refl

sanitize-cut :
    (m a b : Text)
    → normalize m ≡ a ++ (32 ∷ b)
    → length a ≡ 1023
    → sanitize_work_error_message m ≡ a ++ 32 ∷ []
unfolding sanitize_work_error_message
sanitize-cut m a b h n =
    rw h (subst (λ (k : ℕ). take k (a ++ (32 ∷ b)) ≡ a ++ 32 ∷ []) (ap suc n) (take-middle a 32 b))

refused :
    (category : WorkErrorCategory) (retryable : Bool) (s : Text)
    → is_empty s ≡ false
    → ltb 1024 (length s) ≡ false
    → text_eq s (sanitize_work_error_message s) ≡ false
    → work_error_post_init (record { category = category; message = s; retryable = retryable })
      ≡ err (value_error "message must already be sanitized")
unfolding work_error_post_init
refused category retryable s some_left fits again = rw (some_left, fits, again)

-- Where the cut falls behind a space, the sanitized message is refused: if the 1024th character of the
-- normalized message is a space, a WorkError with the sanitized message raises "message must already
-- be sanitized", whatever its category and its flag.
pub sanitized_refused :
    (category : WorkErrorCategory) (retryable : Bool) (m a b : Text)
    → normalize m ≡ a ++ (32 ∷ b)
    → length a ≡ 1023
    → work_error_post_init (record {
      category = category;
      message = sanitize_work_error_message m;
      retryable = retryable;
    })
      ≡ err (value_error "message must already be sanitized")
sanitized_refused category retryable m a b h n =
    let s = a ++ 32 ∷ [] in
    let cut = sanitize-cut m a b h n in
    let size : length s ≡ 1024 = omega (arith, length-append a (32 ∷ []), n) in
    let shorter = normalize-trailing a (subst IsPrintable cut (sanitize_bounded m).1) in
    let again : length (sanitize_work_error_message s) < length s =
      omega (arith, ap length (sanitize_short s (omega arith)), n) in
    subst
      (λ (t : Text).
        work_error_post_init (record { category = category; message = t; retryable = retryable })
        ≡ err (value_error "message must already be sanitized"))
      (sym cut)
      (refused category retryable s (is_empty-false s (omega arith)) (at_most s size)
        (ne-of-length s (sanitize_work_error_message s) again))
  where
    at_most : (t : Text) → length t ≡ 1024 → ltb 1024 (length t) ≡ false
    at_most t e = ground arith
