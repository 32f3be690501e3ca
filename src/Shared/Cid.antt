-- ===== src/Shared/Cid.antt =====
-- contracts/shared/src/validation.rs: the syntax of IPFS content identifiers.
use stellar_invoice_finance.Prelude.{
  ℕ, ◌≤◌, ◌≡◌, ◌↔◌, ◌⊎◌, inl, inr, refl, arith, Bool, true, false, not, ◌&&◌, ◌||◌, List, [], ◌∷◌,
  ltb, leb, ◌==◌, if◌then◌else◌, length, get_elem?, some, contains, Bool-cases,
}
use stellar_invoice_finance.Shared.Errors.{invalid_cid}
use stellar_invoice_finance.Shared.Host.{Outcome, ok, err}
use stellar_invoice_finance.Shared.Types.{Bytes}

abbrev pub cid_max_len : ℕ
cid_max_len = 128

abbrev pub between : ℕ → ℕ → ℕ → Bool
between low high c = leb low c && leb c high

unfoldable pub is_base58_char : ℕ → Bool
is_base58_char c =
    between 49 57 c
    || between 65 72 c
    || between 74 78 c
    || between 80 90 c
    || between 97 107 c
    || between 109 122 c

-- The loop over the characters.
unfoldable pub all_base58 : Bytes → Bool
all_base58 [] = true
all_base58 (c ∷ cs) = let rest = all_base58 cs in if is_base58_char c then rest else false

abbrev pub multibase_prefixes : List ℕ
multibase_prefixes = 98 ∷ 66 ∷ 122 ∷ 102 ∷ 70 ∷ 117 ∷ 85 ∷ 107 ∷ 75 ∷ []

-- The identifier by its first two characters; the length is between 2 and 128.
unfoldable pub check_cid : ℕ → ℕ → Bytes → Outcome (Unit {0})
check_cid first second cid =
    if first == 81 && second == 109
    then if not (length cid == 46)
      then err invalid_cid
      else if all_base58 cid
      then ok tt
      else err invalid_cid
    else if contains first multibase_prefixes
    then if ltb (length cid) 10 then err invalid_cid else ok tt
    else err invalid_cid

unfoldable pub require_valid_ipfs_cid : Bytes → Outcome (Unit {0})
require_valid_ipfs_cid [] = err invalid_cid
require_valid_ipfs_cid (c ∷ []) = err invalid_cid
require_valid_ipfs_cid (first ∷ second ∷ rest) =
    if ltb cid_max_len (length (first ∷ second ∷ rest))
    then err invalid_cid
    else check_cid first second (first ∷ second ∷ rest)

abbrev pub is_alphanumeric : ℕ → Bool
is_alphanumeric c = between 48 57 c || between 65 90 c || between 97 122 c

-- 0, O, I and l
abbrev pub look_alikes : List ℕ
look_alikes = 48 ∷ 79 ∷ 73 ∷ 108 ∷ []

-- The base58 characters are the letters and digits but for those that look alike.
is_base58_char_lem :
    (c : ℕ) → is_base58_char c ≡ (is_alphanumeric c && not (contains c look_alikes))
unfolding is_base58_char
is_base58_char_lem c = ground arith

abbrev pub IsBase58 : Bytes → Type 0
IsBase58 [] = Unit
IsBase58 (c ∷ cs) = ((is_alphanumeric c && not (contains c look_alikes)) ≡ true) × IsBase58 cs

-- "Qm" and 44 more base58 characters.
abbrev pub IsV0 : Bytes → Type 0
IsV0 cid =
    (get_elem? cid 0 ≡ some 81) × (get_elem? cid 1 ≡ some 109) × (length cid ≡ 46) × IsBase58 cid

abbrev pub IsV1 : Bytes → Type 0
IsV1 cid =
    (c : ℕ) × (get_elem? cid 0 ≡ some c)
    × (contains c multibase_prefixes ≡ true)
    × (10 ≤ length cid)
    × (length cid ≤ 128)

all_base58-IsBase58 : (cid : Bytes) → all_base58 cid ≡ true → IsBase58 cid
unfolding all_base58
all_base58-IsBase58 [] h = tt
all_base58-IsBase58 (c ∷ cs) h =
    let e = is_base58_char_lem c in
    (ground (arith, h, e), all_base58-IsBase58 cs (ground (arith, h)))

IsBase58-all_base58 : (cid : Bytes) → IsBase58 cid → all_base58 cid ≡ true
unfolding all_base58
IsBase58-all_base58 [] h = refl
IsBase58-all_base58 (c ∷ cs) (h, t) =
    let e = is_base58_char_lem c in let r = IsBase58-all_base58 cs t in ground (arith, h, e, r)

accepted : (cid : Bytes) → require_valid_ipfs_cid cid ≡ ok tt → IsV0 cid ⊎ IsV1 cid
unfolding require_valid_ipfs_cid check_cid
accepted [] h = absurd (ground (arith, h))
accepted (c ∷ []) h = absurd (ground (arith, h))
accepted (c ∷ d ∷ cs) h = elim (Bool-cases (c == 81 && d == 109)) [
  | inl e ↦ inl (
    ground (arith, e),
    ground (arith, e),
    ground (arith, h, e),
    all_base58-IsBase58 (c ∷ d ∷ cs) (ground (arith, h, e)),
  )
  | inr e ↦ inr (c, refl, ground (arith, h, e), ground (arith, h, e), ground (arith, h, e))
]

accepts : (cid : Bytes) → IsV0 cid ⊎ IsV1 cid → require_valid_ipfs_cid cid ≡ ok tt
unfolding require_valid_ipfs_cid check_cid
accepts [] (inl (a, b, l, s)) = absurd (ground (arith, a))
accepts [] (inr (c, a, m, l, u)) = absurd (ground (arith, a))
accepts (c ∷ []) (inl (a, b, l, s)) = absurd (ground (arith, b))
accepts (c ∷ []) (inr (x, a, m, l, u)) = absurd (ground (arith, l))
accepts (c ∷ d ∷ cs) (inl (a, b, l, s)) =
    let good = IsBase58-all_base58 (c ∷ d ∷ cs) s in ground (arith, a, b, l, good)
accepts (c ∷ d ∷ cs) (inr (x, a, m, l, u)) = ground (arith, a, m, l, u)

-- A string is accepted as an IPFS identifier exactly if it is "Qm" with 44 more base58 characters,
-- which are the letters and digits but 0, O, I and l, or it starts with one of the nine multibase
-- prefixes and has from 10 to 128 characters.
pub require_valid_ipfs_cid_lem :
    (cid : Bytes) → (require_valid_ipfs_cid cid ≡ ok tt) ↔ (IsV0 cid ⊎ IsV1 cid)
require_valid_ipfs_cid_lem cid = (accepted cid, accepts cid)
