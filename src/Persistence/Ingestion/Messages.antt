-- ===== src/Persistence/Ingestion/Messages.antt =====
-- src/persistence/ingestion/lifecycle.py: sanitize_work_error_message and WorkError.
pub mod Words
pub mod Laws
use signalproject.Prelude.{
  bool_eq, ℕ, Bool, true, false, not, ◌&&◌, ◌||◌, List, [], ◌∷◌, ◌++◌, leb, ltb, nat_eq, length,
  take, Result, ok, err, ◌>>=◌, ◌>>◌, raise_if, if◌then◌else◌, Fault, value_error,
}
use signalproject.Prelude.Text.{Text, is_empty, text_eq}
use signalproject.Persistence.Ingestion.Policy.{WorkErrorCategory, is_retryable}

abbrev pub max_error_message_codepoints : ℕ
max_error_message_codepoints = 1_024

-- `character in "\r\n\t"`
abbrev pub is_break : ℕ → Bool
is_break c = nat_eq c 13 || (nat_eq c 10 || nat_eq c 9)

-- `32 <= ord(character) < 127 or ord(character) > 159`
abbrev pub is_printable : ℕ → Bool
is_printable c = (leb 32 c && ltb c 127) || ltb 159 c

-- The join over the characters that are kept
unfoldable pub clean : Text → Text
clean [] = []
clean (c ∷ cs) =
    let rest = clean cs in
    if is_break c then 32 ∷ rest else (if is_printable c then c ∷ rest else rest)

-- The characters at which `str.split()` splits
unfoldable pub is_space : ℕ → Bool
is_space c =
    (leb 9 c && leb c 13)
    || ((leb 28 c && leb c 32)
        || (nat_eq c 133
            || (nat_eq c 160
                || (nat_eq c 5760
                    || ((leb 8192 c && leb c 8202)
                        || (nat_eq c 8232
                            || (nat_eq c 8233
                                || (nat_eq c 8239 || (nat_eq c 8287 || nat_eq c 12288)))))))))

-- A word that has ended, if it has a character
abbrev pub flush : Text → List Text → List Text
flush [] words = words
flush (c ∷ cs) words = (c ∷ cs) ∷ words

-- `str.split()`, with the word read so far
unfoldable pub split_onto : (word : Text) → Text → List Text
unfolding is_space
split_onto word [] = flush word []
split_onto word (c ∷ cs) =
    let rest = split_onto (if is_space c then [] else word ++ c ∷ []) cs in
    if is_space c then flush word rest else rest

-- `" ".join(words)`
abbrev pub join : List Text → Text
join [] = []
join (w ∷ []) = w
join (w ∷ v ∷ words) = w ++ (32 ∷ join (v ∷ words))

-- The message before it is cut
unfoldable pub normalize : Text → Text
unfolding clean split_onto
normalize message = join (split_onto [] (clean message))

-- An empty message is cut to itself.
unfoldable pub sanitize_work_error_message : Text → Text
unfolding normalize
sanitize_work_error_message message = take max_error_message_codepoints (normalize message)

pub record WorkError : Type 0 where
  pub category : WorkErrorCategory
  pub message : Text
  pub retryable : Bool

-- WorkError.__post_init__
unfoldable pub work_error_post_init : WorkError → Result Fault WorkError
work_error_post_init e = do
  raise_if (is_empty e.message) (value_error "message is required")
  raise_if (ltb max_error_message_codepoints (length e.message))
      (value_error "message must not exceed 1024 Unicode code points")
  raise_if (not (text_eq e.message (sanitize_work_error_message e.message)))
      (value_error "message must already be sanitized")
  raise_if (not (bool_eq e.retryable (is_retryable e.category)))
      (value_error "retryable must agree with the error category")
  ok e
