-- ===== src/Config.antt =====
-- `parse_cfg` of the macro BENCHMARK_INIT and the macro INIT_ARCH_CFG, in
-- src/library/include/benchmark_helpers.h: the configuration that a program reads from `arch.cfg`, or
-- sets itself. The text of a line is a parameter, with the library's `stoll` and `stoi` over it,
-- `none` where they throw; the program ends then, as it does without the file.
pub mod Laws
mod Tests
use microrev.Common.{ℕ, Option, none, some, List, [], ◌∷◌, ◌>>=◌}
use microrev.Common.Int.{ℤ}
use microrev.Average.{to_u64}

-- The sizes are uint64_t, the cores int.
pub record Config : Type 0 where
  pub shared_data_size : ℕ
  pub cache_size : ℕ
  pub cache_line_size : ℕ
  pub core_src : ℤ
  pub core_socket0 : ℤ
  pub core_socket1 : ℤ
  pub core_global0 : ℤ
  pub core_global1 : ℤ

-- INIT_ARCH_CFG
abbrev pub init_arch_cfg : ℤ → ℤ → ℤ → ℤ → ℤ → ℕ → ℕ → ℕ → Config
init_arch_cfg csrc csocket0 csocket1 cglobal0 cglobal1 cachesize linesize datasize = record {
  shared_data_size = datasize;
  cache_size = cachesize;
  cache_line_size = linesize;
  core_src = csrc;
  core_socket0 = csocket0;
  core_socket1 = csocket1;
  core_global0 = cglobal0;
  core_global1 = cglobal1;
}

-- What `getline` leaves in its string where no line is left: nothing, or the line before if that one
-- had no newline at its end.
module _ {Line : Type 0} (empty : Line) (at_end : Line → Line) (stoll stoi : Line → Option ℤ) where
  -- The string `rline` and the lines that are left.
  abbrev pub getline : Line × List Line → Line × List Line
  getline (rline, []) = (at_end rline, [])
  getline (rline, next ∷ infile) = (next, infile)

  -- One line, and the number that it holds.
  abbrev pub read_number : (Line → Option ℤ) → Line × List Line → Option (ℤ × (Line × List Line))
  read_number convert input =
      let got = getline input in do number ← convert got.0; some (number, got)

  unfoldable pub parse_cfg : Option (List Line) → Option Config
  parse_cfg none = none
  parse_cfg (some infile) = do
    datasize ← read_number stoll (empty, infile)
    cachesize ← read_number stoll datasize.1
    linesize ← read_number stoi cachesize.1
    csrc ← read_number stoi linesize.1
    csocket0 ← read_number stoi csrc.1
    csocket1 ← read_number stoi csocket0.1
    cglobal0 ← read_number stoi csocket1.1
    cglobal1 ← read_number stoi cglobal0.1
    some (
        init_arch_cfg csrc.0 csocket0.0 csocket1.0 cglobal0.0 cglobal1.0 (to_u64 cachesize.0)
          (to_u64 linesize.0) (to_u64 datasize.0))
