-- ===== src/Authz/Controller/Meaning.antt =====
-- What the controller decides, in terms of the scopes that the authz service returned.
use authlib.Prelude.{
  Bool, true, false, ◌||◌, ◌≡◌, ◌↔◌, ◌⊎◌, inl, inr, refl, sym, ap, ◌∙◌, some, List, [], ◌∷◌, arith,
  any, Any, Any-map, Bool-cases,
}
use authlib.GoMap.{GoMap, get, holds, holds-set}
use authlib.Text.Bytes.{Str, In, codes, str_eq, str_eq_iff}
use authlib.Authz.Scope.{Resource, scope, split_scope}
use authlib.Authz.Scope.Parts.{split_scope_star}
use authlib.Authz.Controller.{
  Controller, add_object, add_objects, empty_controller, new_controller, check,
}

-- The object is a wildcard of the kind.
abbrev pub IsWild : Str → Str → Type 0
IsWild kind object = ((split_scope object).id ≡ codes "*") × ((split_scope object).kind ≡ kind)

-- The object is this scope, and no wildcard.
abbrev IsPlain : Str → Str → Type 0
IsPlain s object = (str_eq (split_scope object).id (codes "*") ≡ false) × (object ≡ s)

add_object-wildcard :
    (c : Controller) (object kind : Str)
    → (holds (add_object c object).wildcard kind ≡ true)
      ↔ ((holds c.wildcard kind ≡ true) ⊎ IsWild kind object)
unfolding add_object
add_object-wildcard c object kind =
    let parts = split_scope object in
    let star = str_eq_iff parts.id (codes "*") in
    let eq = str_eq_iff parts.kind kind in
    let step = holds-set c.wildcard parts.kind kind in
    (λ h. ground (arith, star, eq, step), λ h. ground (arith, star, eq, step))

add_object-scopes :
    (c : Controller) (object s : Str)
    → (holds (add_object c object).scopes s ≡ true) ↔ ((holds c.scopes s ≡ true) ⊎ IsPlain s object)
unfolding add_object
add_object-scopes c object s =
    let eq = str_eq_iff object s in
    let step = holds-set c.scopes object s in
    (λ h. ground (arith, eq, step), λ h. ground (arith, eq, step))

add_objects-wildcard :
    (objects : List Str) (c : Controller) (kind : Str)
    → (holds (add_objects c objects).wildcard kind ≡ true)
      ↔ ((holds c.wildcard kind ≡ true) ⊎ Any (IsWild kind) objects)
unfolding add_objects
add_objects-wildcard [] c kind = (inl, λ h. ground arith)
add_objects-wildcard (object ∷ objects) c kind =
    let ih = add_objects-wildcard objects (add_object c object) kind in
    let step = add_object-wildcard c object kind in
    (λ h. ground (arith, ih, step), λ h. ground (arith, ih, step))

add_objects-scopes :
    (objects : List Str) (c : Controller) (s : Str)
    → (holds (add_objects c objects).scopes s ≡ true)
      ↔ ((holds c.scopes s ≡ true) ⊎ Any (IsPlain s) objects)
unfolding add_objects
add_objects-scopes [] c s = (inl, λ h. ground arith)
add_objects-scopes (object ∷ objects) c s =
    let ih = add_objects-scopes objects (add_object c object) s in
    let step = add_object-scopes c object s in
    (λ h. ground (arith, ih, step), λ h. ground (arith, ih, step))

add_objects-found : (objects : List Str) (c : Controller) → (add_objects c objects).found ≡ c.found
unfolding add_objects add_object
add_objects-found [] c = refl
add_objects-found (object ∷ objects) c =
    ground (arith, add_objects-found objects (add_object c object))

holds-nil : (k : Str) → holds [] k ≡ false
unfolding holds get
holds-nil k = refl

-- The rounds of the last loop of `controller.Check`.
abbrev Matches : GoMap Bool → GoMap Bool → Resource → Type 0
Matches scopes wildcard r = (holds wildcard r.kind ≡ true) ⊎ (holds scopes (scope r) ≡ true)

loop_iff :
    (scopes wildcard : GoMap Bool) (resources : List Resource)
    → (any (λ r. holds wildcard r.kind || holds scopes (scope r)) resources ≡ true)
      ↔ Any (Matches scopes wildcard) resources
unfolding any
loop_iff scopes wildcard [] = (λ h. ground arith, λ h. absurd h)
loop_iff scopes wildcard (r ∷ resources) =
    let ih = loop_iff scopes wildcard resources in
    (λ h. ground (arith, ih), λ h. ground (arith, ih))

-- Empty maps match nothing.
no-match : (resources : List Resource) → Any (Matches [] []) resources → ⊥
no-match [] h = h
no-match (r ∷ resources) h =
    ground (arith, no-match resources, holds-nil r.kind, holds-nil (scope r))

-- `controller.Check` on resources, for a controller with permissions.
check_iff :
    (scopes wildcard : GoMap Bool) (resources : List Resource)
    → (check (record { found = true; scopes = scopes; wildcard = wildcard }) resources ≡ true) ↔ (
        (resources ≡ [])
        ⊎ (holds wildcard (codes "*") ≡ true)
        ⊎ Any (Matches scopes wildcard) resources)
unfolding check
check_iff scopes wildcard [] = (λ h. inl refl, λ h. refl)
check_iff [] [] (r ∷ resources) =
    (λ h. ground arith, λ h. ground (arith, holds-nil (codes "*"), no-match (r ∷ resources)))
check_iff (s ∷ scopes) wildcard (r ∷ resources) =
    let loop = loop_iff (s ∷ scopes) wildcard (r ∷ resources) in
    (λ h. ground (arith, loop), λ h. ground (arith, loop))
check_iff [] (w ∷ wildcard) (r ∷ resources) =
    let loop = loop_iff [] (w ∷ wildcard) (r ∷ resources) in
    (λ h. ground (arith, loop), λ h. ground (arith, loop))

-- What a user may do who has these objects for an action.
abbrev pub Allows : List Str → List Resource → Type 0
Allows objects resources =
    (resources ≡ [])
    ⊎ Any (IsWild (codes "*")) objects
    ⊎ Any (λ r. Any (IsWild r.kind) objects ⊎ In (scope r) objects) resources

-- A scope that is an object is a wildcard of the resource's kind, or in the map of plain scopes.
In-split :
    (r : Resource) (objects : List Str)
    → In (scope r) objects
    → Any (IsWild r.kind) objects ⊎ Any (IsPlain (scope r)) objects
In-split r [] h = absurd h
In-split r (o ∷ objects) (inr h) = ground (arith, In-split r objects h)
In-split r (o ∷ objects) (inl e) = elim (Bool-cases (str_eq (split_scope o).id (codes "*"))) [
  | inl star ↦
      let is_star = (str_eq_iff (split_scope o).id (codes "*")).0 star in
      inl (
        inl (
          is_star,
          ap (λ s. (split_scope s).kind) e
              ∙ split_scope_star r (ap (λ s. (split_scope s).id) (sym e) ∙ is_star),
        ))
  | inr plain ↦ inr (inl (plain, e))
]

module _ (objects : List Str) where
  built : Controller
  built = add_objects (empty_controller true) objects

  built-wildcard : (k : Str) → (holds built.wildcard k ≡ true) ↔ Any (IsWild k) objects
  unfolding built
  built-wildcard k =
      let both = add_objects-wildcard objects (empty_controller true) k in
      (λ h. ground (arith, both, holds-nil k), λ h. ground (arith, both))

  built-scopes : (s : Str) → (holds built.scopes s ≡ true) ↔ Any (IsPlain s) objects
  unfolding built
  built-scopes s =
      let both = add_objects-scopes objects (empty_controller true) s in
      (λ h. ground (arith, both, holds-nil s), λ h. ground (arith, both))

  Matches-built :
      (r : Resource)
      → Matches built.scopes built.wildcard r ↔ (Any (IsWild r.kind) objects ⊎ In (scope r) objects)
  Matches-built r = (fwd, bwd)
    where
      fwd :
          Matches built.scopes built.wildcard r → Any (IsWild r.kind) objects ⊎ In (scope r) objects
      fwd (inl w) = inl ((built-wildcard r.kind).0 w)
      fwd (inr s) =
          inr (Any-map objects (λ o (h : IsPlain (scope r) o). h.1) ((built-scopes (scope r)).0 s))

      bwd :
          Any (IsWild r.kind) objects ⊎ In (scope r) objects → Matches built.scopes built.wildcard r
      bwd (inl w) = inl ((built-wildcard r.kind).1 w)
      bwd (inr s) = elim (In-split r objects s) [
        | inl w ↦ inl ((built-wildcard r.kind).1 w)
        | inr p ↦ inr ((built-scopes (scope r)).1 p)
      ]

  check-built :
      (resources : List Resource)
      → check (record { found = true; scopes = built.scopes; wildcard = built.wildcard }) resources
        ≡ check (new_controller (some (record { objects = objects; found = true }))) resources
  unfolding new_controller built
  check-built resources =
      let c = add_objects (empty_controller true) objects in
      ap
        (λ (b : Bool).
          check (record { found = b; scopes = c.scopes; wildcard = c.wildcard }) resources)
        (sym (add_objects-found objects (empty_controller true)))

-- The controller for objects that the service found accepts resources exactly if there are none, an
-- object is a wildcard of all kinds or of the kind of one of them, or the scope of one of them is
-- among the objects.
pub controller_check_iff :
    (objects : List Str) (resources : List Resource)
    → (check (new_controller (some (record { objects = objects; found = true }))) resources ≡ true)
      ↔ Allows objects resources
controller_check_iff objects resources =
    let same = check-built objects resources in
    let c = built objects in
    let direct = check_iff c.scopes c.wildcard resources in
    let star = built-wildcard objects (codes "*") in
    let per = Matches-built objects in
    (
      λ h. elim (direct.0 (same ∙ h)) [
        | inl empty ↦ inl empty
        | inr (inl w) ↦ inr (inl (star.0 w))
        | inr (inr m) ↦ inr (inr (Any-map resources (λ r. (per r).0) m))
      ],
      λ h.
          sym same
          ∙ direct.1 (elim h [
            | inl empty ↦ inl empty
            | inr (inl w) ↦ inr (inl (star.1 w))
            | inr (inr m) ↦ inr (inr (Any-map resources (λ r. (per r).1) m))
          ]),
    )
