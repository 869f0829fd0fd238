-- ===== src/Cgroup/Utils/Cpusets.antt =====
-- Cpusets in the kernel's list format, as `parse_cpuset` reads them.
use titus_isolate.Prelude.{
  ℕ, zero, suc, ◌-◌, ◌≡◌, ◌≢◌, refl, sym, ap, ◌∙◌, List, [], ◌∷◌, ◌++◌, map, All, All-map,
  All-append, concat_map, ok, pos, arith,
}
use titus_isolate.Text.{Text, split, join, str}
use titus_isolate.Text.Decimal.{IsDigit, IsVisible, str-IsDigit, str-IsVisible, int-str}
use titus_isolate.Text.Parts.{Lacks, split-Lacks, split-append, split-join}
use titus_isolate.Cgroup.Utils.{count_up, parse_range, parse_ranges, parse_cpuset}

-- One number, or the numbers from a first to a last one.
pub data CpuRange : Type 0 where
  single : ℕ → CpuRange
  from_to : ℕ → ℕ → CpuRange

abbrev pub range_text : CpuRange → Text
range_text (single n) = str n
range_text (from_to m n) = str m ++ b'-' ∷ str n

abbrev pub numbers_from : ℕ → ℕ → List ℕ
numbers_from m zero = []
numbers_from m (suc k) = m ∷ numbers_from (suc m) k

abbrev pub numbers : CpuRange → List ℕ
numbers (single n) = n ∷ []
numbers (from_to m n) = numbers_from m (suc n - m)

abbrev pub cpu_list : List CpuRange → Text
cpu_list rs = join b',' (map range_text rs)

str-Lacks : (sep n : ℕ) → ((c : ℕ) → IsDigit c → c ≢ sep) → Lacks sep (str n)
str-Lacks sep n h = All-map IsDigit (λ c. c ≢ sep) h (str n) (str-IsDigit n)

str-Lacks_dash : (n : ℕ) → Lacks b'-' (str n)
str-Lacks_dash n = str-Lacks b'-' n (λ c h. ground arith)

str-Lacks_comma : (n : ℕ) → Lacks b',' (str n)
str-Lacks_comma n = str-Lacks b',' n (λ c h. ground arith)

range_text-Lacks : (r : CpuRange) → Lacks b',' (range_text r)
range_text-Lacks (single n) = str-Lacks_comma n
range_text-Lacks (from_to m n) =
    All-append (λ c. c ≢ b',') (str m) (b'-' ∷ str n) (str-Lacks_comma m)
      (omega arith, str-Lacks_comma n)

pub range_text-IsVisible : (r : CpuRange) → All IsVisible (range_text r)
range_text-IsVisible (single n) = str-IsVisible n
range_text-IsVisible (from_to m n) =
    All-append IsVisible (str m) (b'-' ∷ str n) (str-IsVisible m) (refl, str-IsVisible n)

pub cpu_list-IsVisible : (rs : List CpuRange) → All IsVisible (cpu_list rs)
cpu_list-IsVisible [] = tt
cpu_list-IsVisible (r ∷ []) = range_text-IsVisible r
cpu_list-IsVisible (r ∷ q ∷ rs) =
    All-append IsVisible (range_text r) (b',' ∷ cpu_list (q ∷ rs)) (range_text-IsVisible r)
      (refl, cpu_list-IsVisible (q ∷ rs))

count_up-pos : (m k : ℕ) → count_up (pos m) k ≡ map pos (numbers_from m k)
count_up-pos m zero = refl
count_up-pos m (suc k) = ap (◌∷◌ (pos m)) (count_up-pos (suc m) k)

one : (n : ℕ) → numbers_from n (suc n - n) ≡ n ∷ []
one n = ap (numbers_from n) (let e : suc n - n ≡ 1 = omega arith in e)

parse_range-text :
    (r : CpuRange) → parse_range (split b'-' (range_text r)) ≡ ok (map pos (numbers r))
unfolding parse_range
parse_range-text (single n) =
    rw (split-Lacks b'-' (str n) (str-Lacks_dash n), int-str n)
      (ap ok (count_up-pos n (suc n - n) ∙ ap (map pos) (one n)))
parse_range-text (from_to m n) =
    rw
      (
        split-append b'-' (str m) (str n) (str-Lacks_dash m),
        split-Lacks b'-' (str n) (str-Lacks_dash n),
        int-str m,
        int-str n,
      )
      (ap ok (count_up-pos m (suc n - m)))

pos-append : (xs ys : List ℕ) → map pos (xs ++ ys) ≡ map pos xs ++ map pos ys
pos-append [] ys = refl
pos-append (x ∷ xs) ys = ap (◌∷◌ (pos x)) (pos-append xs ys)

parse_ranges-texts :
    (rs : List CpuRange)
    → parse_ranges (map (split b'-') (map range_text rs)) ≡ ok (map pos (concat_map numbers rs))
unfolding parse_ranges
parse_ranges-texts [] = refl
parse_ranges-texts (r ∷ rs) =
    rw (parse_range-text r, parse_ranges-texts rs)
      (ap ok (sym (pos-append (numbers r) (concat_map numbers rs))))

texts-Lacks : (rs : List CpuRange) → All (Lacks b',') (map range_text rs)
texts-Lacks [] = tt
texts-Lacks (r ∷ rs) = (range_text-Lacks r, texts-Lacks rs)

-- The text of at least one range of CPU numbers, in the list format of the kernel, is parsed as the
-- numbers of all the ranges, in order.
pub parse_cpuset-cpu_list :
    (r : CpuRange) (rs : List CpuRange)
    → parse_cpuset (cpu_list (r ∷ rs)) ≡ ok (map pos (concat_map numbers (r ∷ rs)))
unfolding parse_cpuset
parse_cpuset-cpu_list r rs =
    ap (λ ts. parse_ranges (map (split b'-') ts))
      (split-join b',' (range_text r) (map range_text rs) (texts-Lacks (r ∷ rs)))
    ∙ parse_ranges-texts (r ∷ rs)
