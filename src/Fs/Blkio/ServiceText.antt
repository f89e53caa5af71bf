-- ===== src/Fs/Blkio/ServiceText.antt =====
-- The text of `io_service` files, from its characters to the devices.
use cgroups_rs.Base.{
  ℕ, ℤ, pos, negsuc, ◌+◌, ◌≡◌, refl, true, false, List, [], ◌∷◌, ◌++◌, ok, returns, All, All-append,
  arith, ap, ◌==◌, is_empty,
}
use cgroups_rs.Text.{Text, codes, is_whitespace}
use cgroups_rs.Text.Split.{Free, split, split_by-Free, split_by-append, split_whitespace}
use cgroups_rs.Text.Lines.{unlines, is_break, lines-unlines}
use cgroups_rs.Text.Words.{
  is_plain, plain-Visible, plain-no_colon, plain-no_break, IsWord, split_whitespace-two,
  split_whitespace-three,
}
use cgroups_rs.Number.{IsDigit}
use cgroups_rs.Number.Print.{print, print-IsDigit}
use cgroups_rs.Number.Signed.{print_int, IsI16, parse_i16-print_int}
use cgroups_rs.Fs.Blkio.{IoService, Row, rows_of, parse_io_service}
use cgroups_rs.Fs.Blkio.Services.{
  row, rows_of_services, Counts, Apart, services_of-rows_of_services,
}

-- `major:minor`
abbrev device_text : IoService → Text
device_text io = print_int io.major ++ b':' ∷ print_int io.minor

abbrev line : IoService → Text → ℕ → Text
line io op n = device_text io ++ b' ' ∷ (op ++ b' ' ∷ print n)

-- The lines of the kernel: six for each device, and one with the sum of all.
abbrev pub service_lines : List IoService → ℕ → List Text
service_lines [] sum = (codes "Total" ++ b' ' ∷ print sum) ∷ []
service_lines (io ∷ ios) sum =
    line io (codes "Read") io.read
    ∷ line io (codes "Write") io.write
    ∷ line io (codes "Sync") io.sync
    ∷ line io (codes "Async") io.asynchronous
    ∷ line io (codes "Discard") io.discard
    ∷ line io (codes "Total") io.total
    ∷ service_lines ios sum

abbrev pub service_text : List IoService → ℕ → Text
service_text ios sum = unlines (service_lines ios sum)

-- The numbers of the device have 16 bits.
abbrev pub IsDevice : IoService → Type 0
IsDevice io = IsI16 io.major × IsI16 io.minor

abbrev Full : Text → Type 0
Full s = (is_empty s ≡ false) × (is_plain s ≡ true)

digits-plain : (s : Text) → All IsDigit s → is_plain s ≡ true
unfolding is_plain
digits-plain [] _ = refl
digits-plain (c ∷ s) (h, hs) = ground (arith, digits-plain s hs)

print-Full : (n : ℕ) → Full (print n)
print-Full n = let (c, s, e, d, ds) = print-IsDigit n in rw e (refl, digits-plain (c ∷ s) (d, ds))

print_int-Full : (z : ℤ) → Full (print_int z)
unfolding print_int is_plain
print_int-Full (pos n) = print-Full n
print_int-Full (negsuc n) = (refl, (print-Full (n + 1)).1)

Full-IsWord : (s : Text) → Full s → IsWord s
Full-IsWord s (e, p) = (e, plain-Visible s p)

append-ne-empty : (s t : Text) (c : ℕ) → is_empty (s ++ c ∷ t) ≡ false
append-ne-empty [] t c = refl
append-ne-empty (d ∷ s) t c = refl

device_text-IsWord : (io : IoService) → IsWord (device_text io)
unfolding is_whitespace
device_text-IsWord io = (
  append-ne-empty (print_int io.major) (print_int io.minor) b':',
  All-append _ (print_int io.major) _ (plain-Visible _ (print_int-Full io.major).1)
      (refl, plain-Visible _ (print_int-Full io.minor).1),
)

split-device_text :
    (io : IoService) → split b':' (device_text io) ≡ print_int io.major ∷ print_int io.minor ∷ []
split-device_text io =
    rw
      (
        split_by-append (λ c. c == b':') (print_int io.major) b':' (print_int io.minor)
            (plain-no_colon _ (print_int-Full io.major).1) refl,
        split_by-Free (λ c. c == b':') (print_int io.minor)
            (plain-no_colon _ (print_int-Full io.minor).1),
      )
      refl

words-line :
    (io : IoService) (op : Text) (n : ℕ)
    → Full op
    → split_whitespace (line io op n) ≡ device_text io ∷ op ∷ print n ∷ []
words-line io op n h =
    split_whitespace-three (device_text io) op (print n) (device_text-IsWord io) (Full-IsWord op h)
      (Full-IsWord (print n) (print-Full n))

rows_of-line :
    (io : IoService) (op : Text) (n : ℕ) (ls : List Text) (rs : List Row)
    → IsDevice io
    → Full op
    → rows_of ls ≡ returns rs
    → rows_of (line io op n ∷ ls) ≡ returns (row io op n ∷ rs)
unfolding rows_of
rows_of-line io op n ls rs (hi, hj) h e =
    rw
      (
        words-line io op n h,
        split-device_text io,
        parse_i16-print_int io.major hi,
        parse_i16-print_int io.minor hj,
        e,
      )
      refl

-- The last line has two words only, and it is passed over.
rows_of-sum : (sum : ℕ) → rows_of (service_lines [] sum) ≡ returns []
unfolding rows_of is_plain
rows_of-sum sum =
    rw
      (split_whitespace-two (codes "Total") (print sum) (Full-IsWord (codes "Total") (refl, refl))
        (Full-IsWord (print sum) (print-Full sum)))
      refl

rows_of-service_lines :
    (ios : List IoService) (sum : ℕ)
    → All IsDevice ios
    → rows_of (service_lines ios sum) ≡ returns (rows_of_services ios)
unfolding is_plain
rows_of-service_lines [] sum _ = rows_of-sum sum
rows_of-service_lines (io ∷ ios) sum (h, hs) =
    rows_of-line io (codes "Read") io.read _ _ h (refl, refl)
      (rows_of-line io (codes "Write") io.write _ _ h (refl, refl)
        (rows_of-line io (codes "Sync") io.sync _ _ h (refl, refl)
          (rows_of-line io (codes "Async") io.asynchronous _ _ h (refl, refl)
            (rows_of-line io (codes "Discard") io.discard _ _ h (refl, refl)
              (rows_of-line io (codes "Total") io.total _ _ h (refl, refl)
                (rows_of-service_lines ios sum hs))))))

line-no_break :
    (io : IoService) (op : Text) (n : ℕ) → is_plain op ≡ true → Free is_break (line io op n)
line-no_break io op n h =
    All-append _ (device_text io) _
      (All-append _ (print_int io.major) _ (plain-no_break _ (print_int-Full io.major).1)
        (refl, plain-no_break _ (print_int-Full io.minor).1))
      (refl, All-append _ op _ (plain-no_break op h) (refl, plain-no_break _ (print-Full n).1))

service_lines-no_break :
    (ios : List IoService) (sum : ℕ) → All (Free is_break) (service_lines ios sum)
unfolding is_plain
service_lines-no_break [] sum = (
  All-append (λ c. is_break c ≡ false) (codes "Total") (b' ' ∷ print sum)
      (plain-no_break (codes "Total") refl) (refl, plain-no_break _ (print-Full sum).1),
  tt,
)
service_lines-no_break (io ∷ ios) sum = (
  line-no_break io (codes "Read") io.read refl,
  (
    line-no_break io (codes "Write") io.write refl,
    (
      line-no_break io (codes "Sync") io.sync refl,
      (
        line-no_break io (codes "Async") io.asynchronous refl,
        (
          line-no_break io (codes "Discard") io.discard refl,
          (line-no_break io (codes "Total") io.total refl, service_lines-no_break ios sum),
        ),
      ),
    ),
  ),
)

-- The text of an `io_service` file, with six lines for each device and the line of the sum of all
-- behind them, is read as these devices in their order, with all their counts. The condition is that
-- the numbers of the devices are in the range of `i16` and the counts in that of `u64`, no device has
-- the major number 0, and no two neighbours are the same device.
pub parse_io_service-service_text :
    (io : IoService) (ios : List IoService) (sum : ℕ)
    → All IsDevice (io ∷ ios)
    → Apart io ios
    → All Counts (io ∷ ios)
    → parse_io_service (service_text (io ∷ ios) sum) ≡ returns (ok (io ∷ ios))
unfolding parse_io_service
parse_io_service-service_text io ios sum devices apart counts =
    rw
      (
        lines-unlines (service_lines (io ∷ ios) sum) (service_lines-no_break (io ∷ ios) sum),
        rows_of-service_lines (io ∷ ios) sum devices,
      )
      (ap (λ r. returns r) (services_of-rows_of_services io ios apart counts))
