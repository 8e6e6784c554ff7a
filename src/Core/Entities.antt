-- ===== src/Core/Entities.antt =====
-- src/core/entities/__init__.py: an Entity and its methods.
use signalproject.Prelude.{
  given_or, Option, Bool, true, false, not, List, [], ◌∷◌, ◌++◌, contains, Result, ok, ◌>>◌,
  raise_if, if◌then◌else◌,
}
use signalproject.Prelude.Text.{Text, Text-eq, is_empty}
use signalproject.Core.Lifecycle.{Raised, value_error}

pub data EntityKind : Type 0 where
  company industry macro_variable sector : EntityKind

pub data EntityStatus : Type 0 where
  active delisted acquired renamed inactive : EntityStatus

pub record Entity : Type 0 where
  pub id : Text
  pub kind : EntityKind
  pub name : Text
  pub aliases : List Text
  pub status : EntityStatus
  pub classification : List (Text × Text)

unfoldable pub post_init : Entity → Result (Raised EntityStatus) Entity
post_init e = do
  raise_if (is_empty e.id) (value_error "Entity.id is required")
  raise_if (is_empty e.name) (value_error "Entity.name is required")
  ok e

unfoldable pub rename : Entity → (new_name : Text) → Result (Raised EntityStatus) Entity
rename e new_name = do
  raise_if (is_empty new_name) (value_error "Entity.name cannot be empty")
  post_init (record e {
    name = new_name;
    aliases = if not (contains e.aliases e.name) then e.aliases ++ e.name ∷ [] else e.aliases;
    status = renamed;
  })

abbrev retires : EntityStatus → Bool
retires inactive = true
retires delisted = true
retires acquired = true
retires _ = false

unfoldable pub retire : Entity → (reason : EntityStatus) → Result (Raised EntityStatus) Entity
retire e reason = do
  raise_if (not (retires reason)) (value_error "Invalid retirement status")
  post_init (record e { status = reason })

-- The keyword arguments of Entity.reclassify: a field that is given, or none.
pub record Changes : Type 0 where
  pub id : Option Text
  pub kind : Option EntityKind
  pub name : Option Text
  pub aliases : Option (List Text)
  pub status : Option EntityStatus
  pub classification : Option (List (Text × Text))

unfoldable pub reclassify : Entity → Changes → Result (Raised EntityStatus) Entity
reclassify e changes = post_init (record {
  id = given_or changes.id e.id;
  kind = given_or changes.kind e.kind;
  name = given_or changes.name e.name;
  aliases = given_or changes.aliases e.aliases;
  status = given_or changes.status e.status;
  classification = given_or changes.classification e.classification;
})

-- `new_id` is what `new_id()` returns; `classification or {}` is the empty one for none.
unfoldable pub create :
    (new_id : Text)
    → EntityKind
    → (name : Text) → (id : Option Text) → (aliases : List Text)
    → (classification : Option (List (Text × Text))) → Result (Raised EntityStatus) Entity
create new_id kind name id aliases classification = post_init (record {
  id = given_or id new_id;
  kind = kind;
  name = name;
  aliases = aliases;
  status = active;
  classification = given_or classification [];
})
