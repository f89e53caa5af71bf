-- ===== src/Fs/Memory/Numa.antt =====
-- fs/memory.rs: the text of `memory.numa_stat`: a line for each kind of page, `kind=n N0=n N1=n`,
-- then the same for the hierarchy. With overflow checks, as in a debug build, a text of fewer than
-- eight words panics.
use cgroups_rs.Base.{
  ℕ, List, [], ◌∷◌, Option, none, some, unwrap_or, Outcome, returns, panics, unwrap, then_returns,
  get_elem?, length, ltb, is_empty, if◌then◌else◌,
}
use cgroups_rs.Text.{Text}
use cgroups_rs.Text.Split.{split, split_by, split_either, split_whitespace}
use cgroups_rs.Text.Lines.{lines}
use cgroups_rs.Number.{parse_u64, parse_uint}

-- `[1].parse::<u64>().unwrap_or(0)`
abbrev second : List Text → Outcome ℕ
second pieces = then_returns (unwrap (get_elem? pieces 1)) λ w. returns (unwrap_or (parse_u64 w) 0)

-- `total_line.split([' ', '=']).collect::<Vec<_>>()[1].parse::<u64>().unwrap_or(0)`
unfoldable pub pages : Text → Outcome ℕ
unfolding split_by parse_uint
pages line = second (split_either b' ' b'=' line)

unfoldable pub each_node : List Text → Outcome (List ℕ)
unfolding split_by parse_uint
each_node [] = returns []
each_node (x ∷ xs) =
    then_returns (second (split b'=' x)) λ n. then_returns (each_node xs) λ ns. returns (n ∷ ns)

-- The pieces behind the first.
abbrev behind : List Text → List Text
behind [] = []
behind (x ∷ xs) = xs

unfoldable pub pages_per_node : Text → Outcome (List ℕ)
unfolding split_by each_node
pages_per_node line = each_node (behind (split b' ' line))

-- A line that may be missing.
unfoldable pub hierarchical_pages : Text → Outcome ℕ
unfolding pages
hierarchical_pages line = if is_empty line then returns 0 else pages line

unfoldable pub hierarchical_pages_per_node : Text → Outcome (List ℕ)
unfolding pages_per_node
hierarchical_pages_per_node line = if is_empty line then returns [] else pages_per_node line

pub record NumaStat : Type 0 where
  pub total_pages : ℕ
  pub total_pages_per_node : List ℕ
  pub file_pages : ℕ
  pub file_pages_per_node : List ℕ
  pub anon_pages : ℕ
  pub anon_pages_per_node : List ℕ
  pub unevictable_pages : ℕ
  pub unevictable_pages_per_node : List ℕ
  pub hierarchical_total_pages : ℕ
  pub hierarchical_total_pages_per_node : List ℕ
  pub hierarchical_file_pages : ℕ
  pub hierarchical_file_pages_per_node : List ℕ
  pub hierarchical_anon_pages : ℕ
  pub hierarchical_anon_pages_per_node : List ℕ
  pub hierarchical_unevictable_pages : ℕ
  pub hierarchical_unevictable_pages_per_node : List ℕ

abbrev pub default_numa_stat : NumaStat
default_numa_stat = record {
  total_pages = 0;
  total_pages_per_node = [];
  file_pages = 0;
  file_pages_per_node = [];
  anon_pages = 0;
  anon_pages_per_node = [];
  unevictable_pages = 0;
  unevictable_pages_per_node = [];
  hierarchical_total_pages = 0;
  hierarchical_total_pages_per_node = [];
  hierarchical_file_pages = 0;
  hierarchical_file_pages_per_node = [];
  hierarchical_anon_pages = 0;
  hierarchical_anon_pages_per_node = [];
  hierarchical_unevictable_pages = 0;
  hierarchical_unevictable_pages_per_node = [];
}

-- `ls.next().unwrap_or_default()`
abbrev line_or_default : Option Text → Text
line_or_default none = []
line_or_default (some l) = l

unfoldable pub parse_numa_stat : Text → Outcome NumaStat
unfolding split_whitespace lines pages pages_per_node hierarchical_pages hierarchical_pages_per_node
parse_numa_stat s =
    if ltb (length (split_whitespace s)) 8
    then panics
    else let ls = lines s in
      then_returns (unwrap (get_elem? ls 0)) λ total_line.
        then_returns (unwrap (get_elem? ls 1)) λ file_line.
          then_returns (unwrap (get_elem? ls 2)) λ anon_line.
            then_returns (unwrap (get_elem? ls 3)) λ unevict_line.
              let hier_total_line = line_or_default (get_elem? ls 4) in
              let hier_file_line = line_or_default (get_elem? ls 5) in
              let hier_anon_line = line_or_default (get_elem? ls 6) in
              let hier_unevict_line = line_or_default (get_elem? ls 7) in
              then_returns (pages total_line) λ total.
                then_returns (pages_per_node total_line) λ total_nodes.
                  then_returns (pages file_line) λ file.
                    then_returns (pages_per_node file_line) λ file_nodes.
                      then_returns (pages anon_line) λ anon.
                        then_returns (pages_per_node anon_line) λ anon_nodes.
                          then_returns (pages unevict_line) λ unevictable.
                            then_returns (pages_per_node unevict_line) λ unevictable_nodes.
                              then_returns (hierarchical_pages hier_total_line)
                                λ hierarchical_total.
                                  then_returns (hierarchical_pages_per_node hier_total_line)
                                    λ hierarchical_total_nodes.
                                      then_returns (hierarchical_pages hier_file_line)
                                        λ hierarchical_file.
                                          then_returns (hierarchical_pages_per_node hier_file_line)
                                            λ hierarchical_file_nodes.
                                              then_returns (hierarchical_pages hier_anon_line)
                                                λ hierarchical_anon.
                                                  then_returns
                                                    (hierarchical_pages_per_node hier_anon_line)
                                                    λ hierarchical_anon_nodes.
                                                      then_returns
                                                        (hierarchical_pages hier_unevict_line)
                                                        λ hierarchical_unevictable.
                                                          then_returns
                                                            (hierarchical_pages_per_node
                                                            hier_unevict_line)
                                                            λ hierarchical_unevictable_nodes.
                                                            returns (record {
                                                            total_pages = total;
                                                            total_pages_per_node = total_nodes;
                                                            file_pages = file;
                                                            file_pages_per_node = file_nodes;
                                                            anon_pages = anon;
                                                            anon_pages_per_node = anon_nodes;
                                                            unevictable_pages = unevictable;
                                                            unevictable_pages_per_node =
                                                            unevictable_nodes;
                                                            hierarchical_total_pages =
                                                            hierarchical_total;
                                                            hierarchical_total_pages_per_node =
                                                            hierarchical_total_nodes;
                                                            hierarchical_file_pages =
                                                            hierarchical_file;
                                                            hierarchical_file_pages_per_node =
                                                            hierarchical_file_nodes;
                                                            hierarchical_anon_pages =
                                                            hierarchical_anon;
                                                            hierarchical_anon_pages_per_node =
                                                            hierarchical_anon_nodes;
                                                            hierarchical_unevictable_pages =
                                                            hierarchical_unevictable;
                                                            hierarchical_unevictable_pages_per_node =
                                                            hierarchical_unevictable_nodes;
                                                            })
