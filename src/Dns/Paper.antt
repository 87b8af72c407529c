-- ===== src/Dns/Paper.antt =====
-- An API on paper, which meets the laws of Cloudflare: one zone, whose records are ticked in
-- their order.
use delivery_api.Base.{
  ℕ, zero, suc, ◌<◌, ◌≡◌, refl, ap, inl, inr, arith, false, none, List, [], ◌∷◌, ◌++◌, Str,
  Bool-cases, length, str_eq, if◌then◌else◌, All, update_where, codes, map, select,
}
use delivery_api.Dns.{DnsRecord, Entry, has_id, is_named, AreDistinct, Cloudflare}
use delivery_api.Dns.Complete.{str_eq-length}

abbrev pub ticks : ℕ → Str
ticks zero = b'a' ∷ []
ticks (suc n) = b'a' ∷ ticks n

abbrev pub ticked : ℕ → List DnsRecord → List Entry
ticked n [] = []
ticked n (r ∷ rs) = (ticks n, r) ∷ ticked (suc n) rs

abbrev pub replaced : ℕ → Str → DnsRecord → List DnsRecord → List DnsRecord
replaced n id r [] = []
replaced n id r (x ∷ xs) =
    let rest = replaced (suc n) id r xs in (if str_eq (ticks n) id then r else x) ∷ rest

length-ticks : (n : ℕ) → length (ticks n) ≡ suc n
length-ticks zero = refl
length-ticks (suc n) = ap suc (length-ticks n)

ticked-apart :
    (m n : ℕ) (rs : List DnsRecord) → m < n → All (λ x. has_id (ticks m) x ≡ false) (ticked n rs)
ticked-apart m n [] h = tt
ticked-apart m n (r ∷ rs) h = (
  str_eq-length (ticks n) (ticks m) (λ e. omega (arith, e, length-ticks n, length-ticks m)),
  ticked-apart m (suc n) rs (omega arith),
)

pub ticked-AreDistinct : (n : ℕ) (rs : List DnsRecord) → AreDistinct (ticked n rs)
ticked-AreDistinct n [] = tt
ticked-AreDistinct n (r ∷ rs) =
    (ticked-apart n (suc n) rs (omega arith), ticked-AreDistinct (suc n) rs)

pub ticked-append :
    (n : ℕ) (rs : List DnsRecord) (r : DnsRecord)
    → (id : Str) × (ticked n (rs ++ r ∷ []) ≡ ticked n rs ++ (id, r) ∷ [])
ticked-append n [] r = (ticks n, refl)
ticked-append n (x ∷ xs) r =
    let (id, e) = ticked-append (suc n) xs r in (id, ap ((ticks n, x) ∷◌) e)

pub ticked-replaced :
    (n : ℕ) (id : Str) (r : DnsRecord) (rs : List DnsRecord)
    → ticked n (replaced n id r rs) ≡ update_where (has_id id) (λ e. (e.0, r)) (ticked n rs)
ticked-replaced n id r [] = refl
ticked-replaced n id r (x ∷ xs) = elim (Bool-cases (str_eq (ticks n) id)) [
  | inl hit ↦ rw (hit, ticked-replaced (suc n) id r xs) refl
  | inr miss ↦ rw (miss, ticked-replaced (suc n) id r xs) refl
]

abbrev pub paper : Cloudflare
paper = record {
  State = List DnsRecord;
  entries = λ zone rs. ticked 0 rs;
  zones = λ name rs. inr (record { id = codes "z"; name = name } ∷ []);
  list = λ zone type name rs. inr (map (λ e. e.0) (select (is_named type name) (ticked 0 rs)));
  create = λ zone r rs. (rs ++ r ∷ [], none);
  update = λ zone id r rs. (replaced 0 id r rs, none);
  distinct_law = λ zone rs. ticked-AreDistinct 0 rs;
  list_law = λ zone type name rs. inr refl;
  create_law = λ zone r rs. let (id, e) = ticked-append 0 rs r in inr (id, refl, e);
  update_law = λ zone id r rs. inr (refl, ticked-replaced 0 id r rs);
}
