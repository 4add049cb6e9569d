-- ===== src/Authz/Scope/Parts.antt =====
-- `splitScope` undoes `Resource.Scope`.
use authlib.Prelude.{suc, ◌+◌, ◌≤◌, ◌≡◌, refl, ap, ◌∙◌, List, [], ◌∷◌, ◌++◌, arith, length}
use authlib.Text.Bytes.{Str, codes, Lacks}
use authlib.Text.Split.{
  split, join, join_from, split-append, join-split, length-split, count_byte, count_byte-append,
  count_byte-Lacks,
}
use authlib.Authz.Scope.{Resource, scope, scope_parts, split_scope}

split-scope :
    (r : Resource)
    → Lacks b':' r.kind
    → Lacks b':' r.attr
    → split b':' (scope r) ≡ (r.kind, r.attr ∷ (split b':' r.id).0 ∷ (split b':' r.id).1)
unfolding scope
split-scope r k a =
    rw (split-append b':' r.kind (r.attr ++ (b':' ∷ r.id)) k, split-append b':' r.attr r.id a)

scope_parts-split :
    (r : Resource) → scope_parts (r.kind, r.attr ∷ (split b':' r.id).0 ∷ (split b':' r.id).1) ≡ r
unfolding scope_parts join
scope_parts-split r = λ i. record r { id = join-split b':' r.id i }

-- A scope is split into the parts of its resource, if kind and attribute hold no colon; the
-- identifier may hold colons.
pub split_scope-scope :
    (r : Resource) → Lacks b':' r.kind → Lacks b':' r.attr → split_scope (scope r) ≡ r
unfolding split_scope
split_scope-scope r k a = ap scope_parts (split-scope r k a) ∙ scope_parts-split r

join_from_star :
    (p : Str) (others : List Str) → join_from (b':' ∷ []) p others ≡ codes "*" → others ≡ []
unfolding join_from
join_from_star p [] h = refl
join_from_star [] (q ∷ qs) h = ground arith
join_from_star (c ∷ []) (q ∷ qs) h = ground arith
join_from_star (c ∷ d ∷ p) (q ∷ qs) h = ground arith

-- Three or more fragments give the identifier `*` only if they are three.
parts_star :
    (first : Str) (others : List Str)
    → 2 ≤ length others
    → (scope_parts (first, others)).id ≡ codes "*"
    → length others ≡ 2
unfolding scope_parts join
parts_star first [] h e = absurd (omega arith)
parts_star first (a ∷ []) h e = absurd (omega arith)
parts_star first (a ∷ b ∷ others) h e =
    ap (λ (l : List Str). suc (suc (length l))) (join_from_star b others e)

colons-scope :
    (r : Resource)
    → count_byte b':' (scope r)
      ≡ count_byte b':' r.kind + count_byte b':' r.attr + count_byte b':' r.id + 2
unfolding scope
colons-scope r =
    rw (count_byte-append b':' r.kind _, count_byte-append b':' (b':' ∷ r.attr) (b':' ∷ r.id))
      (unfold count_byte in omega arith)

-- If the identifier of a resource's scope is read as `*`, its kind is read as the resource's kind.
pub split_scope_star :
    (r : Resource) → (split_scope (scope r)).id ≡ codes "*" → (split_scope (scope r)).kind ≡ r.kind
split_scope_star r e =
    let colons = colons-scope r in
    let fragments = length-split b':' (scope r) in
    let three =
      parts_star (split b':' (scope r)).0 (split b':' (scope r)).1 (omega arith)
        (unfold split_scope in e) in
    ap (λ (p : Resource). p.kind)
      (split_scope-scope r (count_byte-Lacks b':' r.kind (omega arith))
        (count_byte-Lacks b':' r.attr (omega arith)))
