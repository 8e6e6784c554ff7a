-- ===== src/Core/Evidence.antt =====
-- src/core/evidence/__init__.py: an Evidence and its methods.
use signalproject.Prelude.{
  given_or, Option, Bool, true, false, not, Option, List, ltb, length, Result, ok, ◌>>◌, raise_if,
  Fault, value_error,
}
use signalproject.Prelude.Text.{Text, is_empty}
use signalproject.Prelude.Float.{Float, ℤ, in_unit_interval}
use signalproject.Core.Sources.{SourceType}

pub record Quality : Type 0 where
  pub source_reliability : Float
  pub content_completeness : Float
  pub retrieval_confidence : Float

unfoldable pub quality_post_init : Quality → Result Fault Quality
quality_post_init q = do
  raise_if (not (in_unit_interval q.source_reliability))
      (value_error "Quality.source_reliability must be in [0.0, 1.0]")
  raise_if (not (in_unit_interval q.content_completeness))
      (value_error "Quality.content_completeness must be in [0.0, 1.0]")
  raise_if (not (in_unit_interval q.retrieval_confidence))
      (value_error "Quality.retrieval_confidence must be in [0.0, 1.0]")
  ok q

pub record Evidence : Type 0 where
  pub id : Text
  pub source_ids : List Text
  pub content : Text
  pub quality : Quality
  pub retrieved_at : Text
  pub retrievable : Bool
  pub source_type : Option SourceType
  pub char_offset : Option (ℤ × ℤ)
  pub excerpt : Option Text
  pub document_hash : Option Text

unfoldable pub post_init : Evidence → Result Fault Evidence
post_init e = do
  raise_if (is_empty e.id) (value_error "Evidence.id is required")
  raise_if (ltb (length e.source_ids) 1) (value_error "Evidence must reference at least one Source")
  raise_if (is_empty e.content) (value_error "Evidence.content is required")
  ok e

-- `reason` is not read by the source.
unfoldable pub with_correction :
    (new_id now : Text) → Evidence → (new_content reason : Text) → Result Fault Evidence
with_correction new_id now e new_content reason =
    post_init
      (record e { id = new_id; content = new_content; retrieved_at = now; retrievable = true })

unfoldable pub mark_non_retrievable : Evidence → Result Fault Evidence
mark_non_retrievable e = post_init (record e { retrievable = false })

-- `new_id` and `now` are what `new_id()` and `now_utc()` return.
unfoldable pub create :
    (new_id now : Text) (source_ids : List Text) (content : Text)
    → Quality
    → (id : Option Text) → (source_type : Option SourceType) → (char_offset : Option (ℤ × ℤ))
    → (excerpt document_hash : Option Text) → Result Fault Evidence
create new_id now source_ids content quality id source_type char_offset excerpt document_hash =
    post_init (record {
      id = given_or id new_id;
      source_ids = source_ids;
      content = content;
      quality = quality;
      retrieved_at = now;
      retrievable = true;
      source_type = source_type;
      char_offset = char_offset;
      excerpt = excerpt;
      document_hash = document_hash;
    })
