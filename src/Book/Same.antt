-- ===== src/Book/Same.antt =====
-- Two states of a ladder that differ in the links of its levels only.
use leka.Base.{
  ℕ, ◌<◌, ◌≡◌, refl, sym, ap, ◌∙◌, inl, inr, Option, none, some, length, ◌==◌, Bool-cases,
  eq_of_test, ne_of_test, get_elem?, get_elem?-set_self, get_elem?-set_ne,
}
use leka.Types.{OrderSide, buy, sell}
use leka.Order.{null}
use leka.Level.{Level}
use leka.Ladder.{Ladder}
use leka.Ladder.Words.{bit}
use leka.Book.{Book, ladder_of, put_ladder}
use leka.Book.Invariant.{Relevelled}

-- A level less its links: the price, the aggregate quantity and the number of orders.
abbrev pub aggregates : Level → Level
aggregates level = record level { head_order = null; tail_order = null }

abbrev pub seen : Option Level → Option Level
seen none = none
seen (some level) = some (aggregates level)

-- The same prices, at each of them the same aggregates, and the same levels marked.
pub record SameSide (l l' : Ladder) : Type 0 where
  pub min : l'.min_price ≡ l.min_price
  pub tick : l'.tick_size ≡ l.tick_size
  pub max : l'.max_price ≡ l.max_price
  pub count : l'.level_count ≡ l.level_count
  pub direction : l'.descending ≡ l.descending
  pub levels : (k : ℕ) → seen (get_elem? l'.levels k) ≡ seen (get_elem? l.levels k)
  pub bits : (k : ℕ) → bit l'.words k ≡ bit l.words k

pub SameSide-refl : (l : Ladder) → SameSide l l
SameSide-refl l = record {
  min = refl;
  tick = refl;
  max = refl;
  count = refl;
  direction = refl;
  levels = λ k. refl;
  bits = λ k. refl;
}

-- A level that is replaced by one with the same aggregates and the same mark.
pub Relevelled-SameSide :
    (l l' : Ladder) (i : ℕ) (level level' : Level)
    → Relevelled l l' i level'
    → get_elem? l.levels i ≡ some level
    → i < length l.levels
    → aggregates level' ≡ aggregates level
    → bit l'.words i ≡ bit l.words i
    → SameSide l l'
Relevelled-SameSide l l' i level level' r at lt same mark = record {
  min = r.min;
  tick = r.tick;
  max = r.max;
  count = r.count;
  direction = r.direction;
  levels = λ k. elim (Bool-cases (k == i)) [
    | inl e ↦
        ap (λ n. seen (get_elem? l'.levels n)) (eq_of_test k i e)
        ∙ ap (λ ls. seen (get_elem? ls i)) r.levels
        ∙ ap seen (get_elem?-set_self l.levels i level' lt)
        ∙ ap some same
        ∙ sym (ap seen at)
        ∙ sym (ap (λ n. seen (get_elem? l.levels n)) (eq_of_test k i e))
    | inr e ↦
        ap (λ ls. seen (get_elem? ls k)) r.levels
        ∙ ap seen (get_elem?-set_ne l.levels i k level' (λ q. ne_of_test k i e (sym q)))
  ];
  bits = λ k. elim (Bool-cases (k == i)) [
    | inl e ↦
        ap (bit l'.words) (eq_of_test k i e) ∙ mark ∙ sym (ap (bit l.words) (eq_of_test k i e))
    | inr e ↦ r.bits k (ne_of_test k i e)
  ];
}

-- A side that is put into the book, the other left.
pub SameSide-put :
    (s side : OrderSide) (l : Ladder) (b : Book)
    → SameSide (ladder_of side b) l
    → SameSide (ladder_of s b) (ladder_of s (put_ladder side l b))
SameSide-put buy buy l b same = same
SameSide-put sell sell l b same = same
SameSide-put buy sell l b same = SameSide-refl (ladder_of buy b)
SameSide-put sell buy l b same = SameSide-refl (ladder_of sell b)
