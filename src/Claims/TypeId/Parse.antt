-- ===== src/Claims/TypeId/Parse.antt =====
-- What `ParseType` and `ParseTypeID` accept.
use authlib.Prelude.{◌≡◌, ◌↔◌, sym, ap, ◌∙◌, some, List, [], ◌∷◌, arith, All}
use authlib.Text.Bytes.{Str, In, str_eq_iff, Lacks, All-In}
use authlib.Text.Split.{split, split-Lacks, split-append, split_lone, join-split, join_from}
use authlib.Claims.TypeId.{
  IdentityType, type_user, type_api_key, type_service_account, type_anonymous, type_render_service,
  type_access_policy, new_type_id, parse_type, parse_parts, parse_type_id,
}

-- The types that `ParseType` lists.
abbrev pub known_types : List IdentityType
known_types =
    type_user ∷ type_api_key ∷ type_service_account ∷ type_anonymous ∷ type_render_service
    ∷ type_access_policy ∷ []

parse_type_sound :
    (s : Str) (typ : IdentityType) → parse_type s ≡ some typ → (s ≡ typ) × In typ known_types
unfolding parse_type
parse_type_sound s typ h = ground (
  arith,
  str_eq_iff s type_user,
  str_eq_iff s type_api_key,
  str_eq_iff s type_service_account,
  str_eq_iff s type_anonymous,
  str_eq_iff s type_render_service,
  str_eq_iff s type_access_policy,
)

-- Each listed type is read as itself and holds no colon.
known_types_lem : All (λ t. (parse_type t ≡ some t) × Lacks b':' t) known_types
unfolding parse_type
known_types_lem = ground arith

parse_parts_sound :
    (parts : Str × List Str) (typ : IdentityType) (identifier : Str)
    → parse_parts parts ≡ some (typ, identifier)
    → (parts ≡ (typ, identifier ∷ [])) × In typ known_types
unfolding parse_parts
parse_parts_sound (first, []) typ identifier h = cc
parse_parts_sound (first, a ∷ []) typ identifier h = ground (arith, parse_type_sound first typ)
parse_parts_sound (first, a ∷ b ∷ others) typ identifier h = cc

parse_type_id_sound :
    (str : Str) (typ : IdentityType) (identifier : Str)
    → parse_type_id str ≡ some (typ, identifier)
    → In typ known_types × Lacks b':' identifier × (str ≡ new_type_id typ identifier)
unfolding parse_type_id new_type_id
parse_type_id_sound str typ identifier h =
    let (e, known) = parse_parts_sound (split b':' str) typ identifier h in
    let lacks : Lacks b':' typ × All (Lacks b':') (identifier ∷ []) =
      rw e at (split-Lacks b':' str) in
    let joined : join_from (b':' ∷ []) typ (identifier ∷ []) ≡ str =
      rw e at (join-split b':' str) in
    (known, lacks.1.0, unfold join_from in sym joined)

split-new_type_id :
    (typ identifier : Str)
    → Lacks b':' typ
    → Lacks b':' identifier
    → split b':' (new_type_id typ identifier) ≡ (typ, identifier ∷ [])
unfolding new_type_id
split-new_type_id typ identifier h k =
    rw (split-append b':' typ identifier h, split_lone b':' identifier k)

parse_type_id_complete :
    (typ : IdentityType) (identifier : Str)
    → In typ known_types
    → Lacks b':' identifier
    → parse_type_id (new_type_id typ identifier) ≡ some (typ, identifier)
unfolding parse_type_id
parse_type_id_complete typ identifier known lacks =
    let (parsed, typ_lacks) =
      All-In (λ t. (parse_type t ≡ some t) × Lacks b':' t) known_types typ known_types_lem known in
    ap parse_parts (split-new_type_id typ identifier typ_lacks lacks)
    ∙ parse_parts_lone typ identifier parsed
  where
    parse_parts_lone : (t i : Str) → parse_type t ≡ some t → parse_parts (t, i ∷ []) ≡ some (t, i)
    parse_parts_lone t i e = unfold parse_parts in cc e

-- `ParseTypeID` accepts a string exactly when it is a listed type, a colon and an identifier
-- without a colon, and it returns these two.
pub parse_type_id_iff :
    (str : Str) (typ : IdentityType) (identifier : Str)
    → (parse_type_id str ≡ some (typ, identifier))
      ↔ (In typ known_types × Lacks b':' identifier × (str ≡ new_type_id typ identifier))
parse_type_id_iff str typ identifier = (
  parse_type_id_sound str typ identifier,
  λ (known, lacks, e). rw e (parse_type_id_complete typ identifier known lacks),
)
