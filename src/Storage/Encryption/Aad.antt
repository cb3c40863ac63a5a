-- ===== src/Storage/Encryption/Aad.antt =====
-- The additional data of two messages are the same for the same message only.
use gogoclaw.Base.{◌≡◌, ◌≢◌, refl, [], ◌∷◌, ◌++◌}
use gogoclaw.Base.Bytes.{Bytes}
use gogoclaw.Storage.Encryption.{build_message_aad}

abbrev pub NoZero : Bytes → Type 0
NoZero [] = Unit {0}
NoZero (b ∷ bs) = (b ≢ 0) × NoZero bs

split_at_zero :
    (xs ys rest more : Bytes)
    → NoZero xs
    → NoZero ys
    → xs ++ (0 ∷ rest) ≡ ys ++ (0 ∷ more)
    → (xs ≡ ys) × (rest ≡ more)
split_at_zero [] [] rest more n m e = (refl, cc)
split_at_zero [] (y ∷ ys) rest more n m e = absurd (m.0 (cc))
split_at_zero (x ∷ xs) [] rest more n m e = absurd (n.0 (cc))
split_at_zero (x ∷ xs) (y ∷ ys) rest more n m e =
    let (same, tails) = split_at_zero xs ys rest more n.1 m.1 (cc) in
    let head : x ≡ y = cc in (cc, tails)

-- Where no identifier holds a zero byte, messages that differ in their id, their conversation or
-- their role differ in the data that their ciphertext is bound to.
pub build_message_aad_injective :
    (id id' conversation conversation' role role' : Bytes)
    → NoZero id
    → NoZero id'
    → NoZero conversation
    → NoZero conversation'
    → build_message_aad id conversation role ≡ build_message_aad id' conversation' role'
    → (id ≡ id') × (conversation ≡ conversation') × (role ≡ role')
unfolding build_message_aad
build_message_aad_injective id id' conversation conversation' role role' a b c d e =
    let (same_id, e') =
      split_at_zero id id' (conversation ++ (0 ∷ role)) (conversation' ++ (0 ∷ role')) a b e in
    let (same_conversation, same_role) =
      split_at_zero conversation conversation' role role' c d e' in
    (same_id, same_conversation, same_role)
