-- ===== src/SiteDetail/FreeCells.antt =====
-- The counts of a site's page count each free cell once at most.
use smart_parcel_locker.Prelude.{
  ℕ, ◌+◌, ◌≤◌, Text, text, text_eq, text_eq_iff, Bool, true, false, List, [], ◌∷◌, ◌&&◌, ◌≡◌, refl,
  if◌then◌else◌, arith, sym, subst,
}
use smart_parcel_locker.SiteClient.{CellDto}
use smart_parcel_locker.SiteDetail.{is_idle_of, count, counts}

-- How many cells are free, whatever their size.
abbrev pub free : List CellDto → ℕ
free [] = 0
free (cell ∷ rest) =
    let more = free rest in if text_eq cell.status (text "CELL_STATUS_IDLE") then more + 1 else more

bit : Bool → ℕ
bit b = if b then 1 else 0

count_cons :
    (size : Text) (cell : CellDto) (rest : List CellDto)
    → count size (cell ∷ rest) ≡ count size rest + bit (is_idle_of size cell)
unfolding count bit
count_cons size cell rest = ground arith

free_cons :
    (cell : CellDto) (rest : List CellDto)
    → free (cell ∷ rest) ≡ free rest + bit (text_eq cell.status (text "CELL_STATUS_IDLE"))
unfolding bit
free_cons cell rest = ground arith

-- A text that equals one of two texts that differ does not equal the other.
not_other : (t a b : Text) → text_eq a b ≡ false → text_eq t a ≡ true → text_eq t b ≡ false
not_other t a b differ h = subst (λ x. text_eq x b ≡ false) (sym ((text_eq_iff t a).0 h)) differ

-- Of three tests, one at most holds.
bits_once :
    (x y z idle : Bool)
    → (x ≡ true → (y ≡ false) × (z ≡ false))
    → (y ≡ true → z ≡ false)
    → bit (x && idle) + bit (y && idle) + bit (z && idle) ≤ bit idle
unfolding bit
bits_once true y z idle p q = let (a, b) = p refl in rw (a, b) (ground arith)
bits_once false true z idle p q = rw (q refl) (ground arith)
bits_once false false z idle p q = ground arith

cell_once :
    (cell : CellDto)
    → bit (is_idle_of (text "CELL_SIZE_SMALL") cell)
        + bit (is_idle_of (text "CELL_SIZE_MEDIUM") cell)
        + bit (is_idle_of (text "CELL_SIZE_LARGE") cell)
      ≤ bit (text_eq cell.status (text "CELL_STATUS_IDLE"))
unfolding text text_eq
cell_once cell =
    bits_once _ _ _ _
      (λ h. (
        not_other cell.size (text "CELL_SIZE_SMALL") (text "CELL_SIZE_MEDIUM") refl h,
        not_other cell.size (text "CELL_SIZE_SMALL") (text "CELL_SIZE_LARGE") refl h,
      ))
      (λ h. not_other cell.size (text "CELL_SIZE_MEDIUM") (text "CELL_SIZE_LARGE") refl h)

-- The counts of the small, the medium and the large cells that are free are together at most the
-- number of the cells that are free, so no cell is counted twice.
pub counts-le :
    (cells : List CellDto)
    → (counts cells).small + (counts cells).medium + (counts cells).large ≤ free cells
unfolding counts count
counts-le [] = omega arith
counts-le (cell ∷ rest) = omega (
  arith,
  counts-le rest,
  cell_once cell,
  free_cons cell rest,
  count_cons (text "CELL_SIZE_SMALL") cell rest,
  count_cons (text "CELL_SIZE_MEDIUM") cell rest,
  count_cons (text "CELL_SIZE_LARGE") cell rest,
)
