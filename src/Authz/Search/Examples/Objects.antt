-- ===== src/Authz/Search/Examples/Objects.antt =====
-- An encoder of objects for the examples of the search client.
use Prim.Native.Nat.{suc}
use authlib.Prelude.{◌≡◌, ◌≢◌, refl, sym, List, [], ◌∷◌, arith}
use authlib.Text.Bytes.{Str}

-- An encoding of objects: each byte is written as its successor, and each string ends with a zero.
unfoldable pub write_string : Str → Str → Str
write_string [] others = 0 ∷ others
write_string (b ∷ s) others = suc b ∷ write_string s others

unfoldable pub write_object : List (Str × Str) → Str
write_object [] = []
write_object ((name, value) ∷ fields) = write_string name (write_string value (write_object fields))

write_string_injective : (a b x y : Str) → write_string a x ≡ write_string b y → (a ≡ b) × (x ≡ y)
unfolding write_string
write_string_injective [] [] x y e = ground arith
write_string_injective [] (c ∷ b) x y e = absurd (ground arith)
write_string_injective (c ∷ a) [] x y e = absurd (ground arith)
write_string_injective (c ∷ a) (d ∷ b) x y e =
    let (same, others) = write_string_injective a b x y (ground arith) in (ground arith, others)

write_string-not_nil : (a x : Str) → write_string a x ≢ []
unfolding write_string
write_string-not_nil [] x e = ground arith
write_string-not_nil (b ∷ a) x e = ground arith

pub write_object_injective :
    (fields others : List (Str × Str)) → write_object fields ≡ write_object others → fields ≡ others
unfolding write_object
write_object_injective [] [] e = refl
write_object_injective [] ((name, value) ∷ others) e = absurd (write_string-not_nil name _ (sym e))
write_object_injective ((name, value) ∷ fields) [] e = absurd (write_string-not_nil name _ e)
write_object_injective ((name, value) ∷ fields) ((name', value') ∷ others) e =
    let (n, values) = write_string_injective name name' _ _ e in
    let (v, objects) = write_string_injective value value' _ _ values in
    let rest = write_object_injective fields others objects in cc (n, v, rest)
