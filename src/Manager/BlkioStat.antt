-- ===== src/Manager/BlkioStat.antt =====
-- manager/fs.rs: the block I/O statistics of a container, and a value of a keyed text.
mod Tests
use cgroups_rs.Base.{ℕ, List, [], ◌∷◌, ◌++◌, Option, none, some, as_u64, if◌then◌else◌}
use cgroups_rs.Text.{Text, codes, text_eq}
use cgroups_rs.Text.Split.{split_whitespace}
use cgroups_rs.Text.Lines.{lines}
use cgroups_rs.Fs.Blkio.{BlkIoData, IoService, IoStatLine}

pub record BlkioStat : Type 0 where
  pub major : ℕ
  pub minor : ℕ
  pub op : Text
  pub value : ℕ

-- `discard` is not among them.
unfoldable pub from_io_services : List IoService → List BlkioStat
from_io_services [] = []
from_io_services (io ∷ ios) =
    record { major = as_u64 io.major; minor = as_u64 io.minor; op = codes "read"; value = io.read }
    ∷ record {
      major = as_u64 io.major;
      minor = as_u64 io.minor;
      op = codes "write";
      value = io.write;
    }
    ∷ record {
      major = as_u64 io.major;
      minor = as_u64 io.minor;
      op = codes "sync";
      value = io.sync;
    }
    ∷ record {
      major = as_u64 io.major;
      minor = as_u64 io.minor;
      op = codes "async";
      value = io.asynchronous;
    }
    ∷ record {
      major = as_u64 io.major;
      minor = as_u64 io.minor;
      op = codes "total";
      value = io.total;
    }
    ∷ from_io_services ios

unfoldable pub from_io_stats : List IoStatLine → List BlkioStat
from_io_stats [] = []
from_io_stats (io ∷ ios) =
    record {
      major = as_u64 io.major;
      minor = as_u64 io.minor;
      op = codes "read";
      value = io.rbytes;
    }
    ∷ record {
      major = as_u64 io.major;
      minor = as_u64 io.minor;
      op = codes "write";
      value = io.wbytes;
    }
    ∷ record {
      major = as_u64 io.major;
      minor = as_u64 io.minor;
      op = codes "rios";
      value = io.rios;
    }
    ∷ record {
      major = as_u64 io.major;
      minor = as_u64 io.minor;
      op = codes "wios";
      value = io.wios;
    }
    ∷ record {
      major = as_u64 io.major;
      minor = as_u64 io.minor;
      op = codes "dbytes";
      value = io.dbytes;
    }
    ∷ record {
      major = as_u64 io.major;
      minor = as_u64 io.minor;
      op = codes "dios";
      value = io.dios;
    }
    ∷ from_io_stats ios

unfoldable pub from_blk_io_data : List BlkIoData → List BlkioStat
from_blk_io_data [] = []
from_blk_io_data (d ∷ ds) =
    record { major = as_u64 d.major; minor = as_u64 d.minor; op = []; value = d.amount }
    ∷ from_blk_io_data ds

-- A line whose first word is the item, and whose second one parses.
abbrev value_of_words : {A : Type 0} → (Text → Option A) → Text → List Text → Option A
value_of_words parse item (current_item ∷ word ∷ rest) =
    if text_eq current_item item then parse word else none
value_of_words parse item _ = none

abbrev or_else_rest : {A : Type 0} → Option A → Option A → Option A
or_else_rest none rest = rest
or_else_rest (some a) rest = some a

unfoldable pub value_of_lines : {A : Type 0} → (Text → Option A) → Text → List Text → Option A
unfolding split_whitespace text_eq
value_of_lines parse item [] = none
value_of_lines parse item (l ∷ ls) =
    or_else_rest (value_of_words parse item (split_whitespace l)) (value_of_lines parse item ls)

-- The type's `parse` comes first.
unfoldable pub parse_value_from_tuples : {A : Type 0} → (Text → Option A) → Text → Text → Option A
unfolding lines value_of_lines
parse_value_from_tuples parse tuple_str item = value_of_lines parse item (lines tuple_str)
