-- ===== src/Pool/Fresh.antt =====
-- A page of order_pool.cpp as its constructor leaves it.
use leka.Base.{
  ℕ, zero, suc, ◌+◌, ◌<◌, ◌≡◌, ◌≢◌, refl, sym, ap, ◌∙◌, true, false, ◌&&◌, arith, leb, ltb, length,
  get_or, replicate, length-replicate, has, IsDistinct,
}
use leka.Pool.{slots_per_page, iota_from, Page, make_page}
use leka.Pool.Slots.{IsChain, taken_slots, IsSlots}

length-iota_from : (a n : ℕ) → length (iota_from a n) ≡ n
unfolding iota_from
length-iota_from a zero = refl
length-iota_from a (suc n) = ap suc (length-iota_from (suc a) n)

get_or-iota_from : (a n j d : ℕ) → j < n → get_or (iota_from a n) j d ≡ a + j
unfolding iota_from
get_or-iota_from a zero j d h = absurd (omega arith)
get_or-iota_from a (suc n) zero d h = omega arith
get_or-iota_from a (suc n) (suc j) d h = omega (arith, get_or-iota_from (suc a) n j d (omega arith))

has-iota_from : (a n j : ℕ) → has j (iota_from a n) ≡ (leb a j && ltb j (a + n))
unfolding iota_from
has-iota_from a zero j = ground arith
has-iota_from a (suc n) j = ground (arith, has-iota_from (suc a) n j)

iota_from-IsDistinct : (a n : ℕ) → IsDistinct (iota_from a n)
unfolding iota_from
iota_from-IsDistinct a zero = tt
iota_from-IsDistinct a (suc n) =
    (ground (arith, has-iota_from (suc a) n a), iota_from-IsDistinct (suc a) n)

iota_from-IsChain :
    (a n : ℕ) → a + n ≡ slots_per_page → IsChain (iota_from 1 slots_per_page) a (iota_from a n)
unfolding iota_from
iota_from-IsChain a zero e = omega arith
iota_from-IsChain a (suc n) e =
    let next : get_or (iota_from 1 slots_per_page) a 0 ≡ suc a =
      omega (arith, get_or-iota_from 1 slots_per_page a 0 (omega arith)) in
    (refl, rw next (iota_from-IsChain (suc a) n (omega arith)))

taken_slots-replicate : (n : ℕ) → taken_slots (replicate n false) ≡ 0
unfolding taken_slots
taken_slots-replicate zero = refl
taken_slots-replicate (suc n) = omega (arith, taken_slots-replicate n)

get_or-replicate : (n j : ℕ) → j < n → get_or (replicate n false) j true ≡ false
get_or-replicate zero j h = absurd (omega arith)
get_or-replicate (suc n) zero h = refl
get_or-replicate (suc n) (suc j) h = get_or-replicate n j (omega arith)

abbrev pub IsPage : Page → Type 0
IsPage p = IsSlots p.next_free p.is_occupied p.first_free p.free_count p.storage

pub make_page-IsPage : (address : ℕ) → 0 < address → IsPage (make_page address)
unfolding make_page
make_page-IsPage address h = record {
  free = iota_from 0 slots_per_page;
  chain = iota_from-IsChain 0 slots_per_page refl;
  distinct = iota_from-IsDistinct 0 slots_per_page;
  inside = λ j m. ground (arith, has-iota_from 0 slots_per_page j);
  counted = sym (length-iota_from 0 slots_per_page);
  linked = length-iota_from 1 slots_per_page;
  flagged = length-replicate slots_per_page false;
  flags =
      λ j h. get_or-replicate slots_per_page j h ∙ ground (arith, has-iota_from 0 slots_per_page j);
  shared = omega (arith, length-iota_from 0 slots_per_page, taken_slots-replicate slots_per_page);
  aligned = omega arith;
  somewhere = omega arith;
}

pub make_page-off : (address : ℕ) → (make_page address).on_free_page_list ≡ false
unfolding make_page
make_page-off address = refl

pub make_page-free : (address : ℕ) → (make_page address).free_count ≢ 0
unfolding make_page
make_page-free address e = absurd (omega arith)

pub make_page-unused :
    (address j : ℕ) → j < slots_per_page → get_or (make_page address).is_occupied j true ≡ false
unfolding make_page
make_page-unused address j h = get_or-replicate slots_per_page j h
