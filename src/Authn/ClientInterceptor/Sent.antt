-- ===== src/Authn/ClientInterceptor/Sent.antt =====
-- The metadata that the interceptor sends: the access token, and then what the extractors return.
use authlib.Prelude.{◌≡◌, ◌↔◌, refl, sym, ap, ◌∙◌, inl, inr, List, [], ◌∷◌, arith, if◌then◌else◌}
use authlib.Errors.{ok, Result-cases, ok_injective}
use authlib.Text.Bytes.{Str, str_eq}
use authlib.Claims.Context.{Metadata, Context}
use authlib.Authn.ClientInterceptor.{
  MetadataApi, IsMetadata, GrpcClientConfig, ContextMetadataExtractor, set_extracted,
}

-- The values that a key has after the pairs are set one by one.
abbrev pub last_sent : MetadataApi → List (Str × List Str) → Str → List Str → List Str
last_sent api [] j old = old
last_sent api ((k, []) ∷ ps) j old = last_sent api ps j old
last_sent api ((k, v ∷ values) ∷ ps) j old =
    last_sent api ps j (if str_eq (api.lower k) (api.lower j) then v ∷ values else old)

abbrev pub set_all : MetadataApi → List (Str × List Str) → Metadata → Metadata
set_all api [] md = md
set_all api ((k, values) ∷ ps) md = set_all api ps (api.set md k values)

pub get-set_all :
    (api : MetadataApi) (law : IsMetadata api) (ps : List (Str × List Str)) (md : Metadata)
    (j : Str)
    → api.get (set_all api ps md) j ≡ last_sent api ps j (api.get md j)
get-set_all api law [] md j = refl
get-set_all api law ((k, []) ∷ ps) md j =
    get-set_all api law ps (api.set md k []) j
    ∙ ap (λ md'. last_sent api ps j (api.get md' j)) (law.set-nil md k)
get-set_all api law ((k, v ∷ values) ∷ ps) md j =
    get-set_all api law ps (api.set md k (v ∷ values)) j
    ∙ ap (last_sent api ps j) (law.get-set md k j v values)

-- Each extractor returns its pair.
abbrev pub Extracted :
    List (GrpcClientConfig → ContextMetadataExtractor)
    → GrpcClientConfig
    → Context
    → List (Str × List Str)
    → Type 0
Extracted [] cfg ctx [] = Unit
Extracted [] cfg ctx (p ∷ ps) = ⊥
Extracted (extract ∷ extractors) cfg ctx [] = ⊥
Extracted (extract ∷ extractors) cfg ctx (p ∷ ps) =
    (extract cfg ctx ≡ ok p) × Extracted extractors cfg ctx ps

set_extracted_sound :
    (api : MetadataApi) (extractors : List (GrpcClientConfig → ContextMetadataExtractor))
    (cfg : GrpcClientConfig) (ctx : Context) (md md' : Metadata)
    → set_extracted api extractors cfg ctx md ≡ ok md'
    → (ps : List (Str × List Str)) × Extracted extractors cfg ctx ps × (md' ≡ set_all api ps md)
unfolding set_extracted
set_extracted_sound api [] cfg ctx md md' h = ([], tt, sym (ok_injective h))
set_extracted_sound api (extract ∷ extractors) cfg ctx md md' h =
    elim (Result-cases (extract cfg ctx)) [
      | inr (x, e) ↦ absurd (ground arith)
      | inl ((k, v), e) ↦
          let rest : set_extracted api extractors cfg ctx (api.set md k v) ≡ ok md' =
            rw (e, set_extracted) at h in
          let (ps, each, same) =
            set_extracted_sound api extractors cfg ctx (api.set md k v) md' rest in
          ((k, v) ∷ ps, (e, each), same)
    ]

set_extracted_complete :
    (api : MetadataApi) (extractors : List (GrpcClientConfig → ContextMetadataExtractor))
    (cfg : GrpcClientConfig) (ctx : Context) (md : Metadata) (ps : List (Str × List Str))
    → Extracted extractors cfg ctx ps
    → set_extracted api extractors cfg ctx md ≡ ok (set_all api ps md)
unfolding set_extracted
set_extracted_complete api [] cfg ctx md [] each = refl
set_extracted_complete api [] cfg ctx md (p ∷ ps) each = absurd each
set_extracted_complete api (extract ∷ extractors) cfg ctx md [] each = absurd each
set_extracted_complete api (extract ∷ extractors) cfg ctx md ((k, v) ∷ ps) (e, each) =
    rw (e, set_extracted) (set_extracted_complete api extractors cfg ctx (api.set md k v) ps each)

-- The loop succeeds exactly if each extractor does, and then sets their pairs in order.
pub set_extracted_iff :
    (api : MetadataApi) (extractors : List (GrpcClientConfig → ContextMetadataExtractor))
    (cfg : GrpcClientConfig) (ctx : Context) (md md' : Metadata)
    → (set_extracted api extractors cfg ctx md ≡ ok md')
      ↔ ((ps : List (Str × List Str)) × Extracted extractors cfg ctx ps × (md' ≡ set_all api ps md))
set_extracted_iff api extractors cfg ctx md md' = (
  set_extracted_sound api extractors cfg ctx md md',
  λ (ps, each, same).
      set_extracted_complete api extractors cfg ctx md ps each ∙ ap (λ m. ok m) (sym same),
)
