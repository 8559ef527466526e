-- ===== src/Config/Laws.antt =====
-- `parse_cfg` reads back a configuration that was written line by line.
use microrev.Common.{ℕ, ◌≡◌, refl, ◌<◌, ◌^◌, ◌%◌, Option, some, List, [], ◌∷◌, ◌++◌, arith}
use microrev.Common.Int.{ℤ, pos}
use microrev.Config.{Config, init_arch_cfg, parse_cfg}
use native.Mathlib.Nat.{mod-eq_of_lt}

module _ {Line : Type 0} (empty : Line) (at_end : Line → Line) (stoll stoi : Line → Option ℤ)
    (print : ℤ → Line) (stoll-print : (n : ℕ) → n < 2 ^ 63 → stoll (print (pos n)) ≡ some (pos n))
    (stoi-print : (n : ℕ) → n < 2 ^ 31 → stoi (print (pos n)) ≡ some (pos n)) where
  -- The lines of `arch.cfg`, in the order in which `parse_cfg` takes them.
  abbrev pub to_lines : Config → List Line
  to_lines cfg =
      print (pos cfg.shared_data_size)
      ∷ print (pos cfg.cache_size)
      ∷ print (pos cfg.cache_line_size)
      ∷ print cfg.core_src
      ∷ print cfg.core_socket0
      ∷ print cfg.core_socket1
      ∷ print cfg.core_global0
      ∷ print cfg.core_global1
      ∷ []

  -- A configuration written to the file is read back, if its sizes are in range and its cores are
  -- numbers from 0; further lines are ignored.
  pub parse_cfg-to_lines :
      (datasize cachesize linesize a b c d e : ℕ) (further : List Line)
      → datasize < 2 ^ 63
      → cachesize < 2 ^ 63
      → linesize < 2 ^ 31
      → (a < 2 ^ 31) × (b < 2 ^ 31) × (c < 2 ^ 31) × (d < 2 ^ 31) × (e < 2 ^ 31)
      → let cfg =
          init_arch_cfg (pos a) (pos b) (pos c) (pos d) (pos e) cachesize linesize datasize in
        parse_cfg empty at_end stoll stoi (some (to_lines cfg ++ further)) ≡ some cfg
  unfolding parse_cfg
  parse_cfg-to_lines datasize cachesize linesize a b c d e further fit0 fit1 fit2
        (fa, fb, fc, fd, fe) =
      let whole0 : datasize % 2 ^ 64 ≡ datasize = mod-eq_of_lt (omega arith) in
      let whole1 : cachesize % 2 ^ 64 ≡ cachesize = mod-eq_of_lt (omega arith) in
      let whole2 : linesize % 2 ^ 64 ≡ linesize = mod-eq_of_lt (omega arith) in
      rw
        (
          stoll-print datasize fit0,
          stoll-print cachesize fit1,
          stoi-print linesize fit2,
          stoi-print a fa,
          stoi-print b fb,
          stoi-print c fc,
          stoi-print d fd,
          stoi-print e fe,
          whole0,
          whole1,
          whole2,
        )
        refl
