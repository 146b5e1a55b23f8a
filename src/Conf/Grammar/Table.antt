-- ===== src/Conf/Grammar/Table.antt =====
-- The writes that a range makes to its entry of the table, as one write.
use mathlib.Core.Path.{fun_ext}
use dhcpd_pools.Base.{◌∙◌, ◌≡◌, refl, ap, ℕ, ◌==◌, true, some, arith, Bool-cases, inl, inr}
use dhcpd_pools.Data.{Bytes, ipv4, v4, Range}
use dhcpd_pools.Address.{Inet}
use dhcpd_pools.Conf.State.{reorder_last_first, reorder_last_first-v4, write_range}
use dhcpd_pools.Conf.Grammar.{range_between, address_of}

pub write_range_twice :
    (ranges : ℕ → Range) (n : ℕ) (r s : Range)
    → write_range (write_range ranges n r) n s ≡ write_range ranges n s
unfolding write_range
write_range_twice ranges n r s =
    fun_ext (λ j. elim (Bool-cases (j == n)) [ inl e ↦ rw e refl | inr e ↦ rw e refl ])

pub write_range_here : (ranges : ℕ → Range) (n : ℕ) (r : Range) → write_range ranges n r n ≡ r
unfolding write_range
write_range_here ranges n r = let e : (n == n) ≡ true = ground arith in rw e refl

module _ (inet : Inet) where
  -- The entry that the two words make.
  pub entry-range_between :
      (ranges : ℕ → Range) (n k : ℕ) (first last : Bytes)
      → (record (reorder_last_first ipv4 (record (ranges n) {
        first_ip = v4 (address_of inet first);
        last_ip = v4 (address_of inet last);
      })) { count = 0; touched = 0; backups = 0; shared_net = some k })
        ≡ range_between inet k first last
  entry-range_between ranges n k first last =
      ap (λ (r : Range). record r { count = 0; touched = 0; backups = 0; shared_net = some k })
        (reorder_last_first-v4 (ranges n) (address_of inet first) (address_of inet last))

  abbrev pub set_last : Bytes → Range → Range
  set_last last r = reorder_last_first ipv4 (record r { last_ip = v4 (address_of inet last) })

  abbrev pub finish : ℕ → Range → Range
  finish k r = record r { count = 0; touched = 0; backups = 0; shared_net = some k }

  -- The writes to one entry of the table, as one write.
  abbrev pub write_finished : (ℕ → Range) → (n k : ℕ) → ℕ → Range
  write_finished ranges n k = write_range ranges n (finish k (ranges n))

  write_last_finished :
      (ranges : ℕ → Range) (n k : ℕ) (last : Bytes)
      → write_finished (write_range ranges n (set_last last (ranges n))) n k
        ≡ write_range ranges n (finish k (set_last last (ranges n)))
  write_last_finished ranges n k last =
      ap (λ r. write_range (write_range ranges n (set_last last (ranges n))) n (finish k r))
        (write_range_here ranges n (set_last last (ranges n)))
      ∙ write_range_twice ranges n _ _

  pub write_both_finished :
      (ranges : ℕ → Range) (n k : ℕ) (first last : Bytes) (r : Range)
      → r ≡ record (ranges n) { first_ip = v4 (address_of inet first) }
      → write_finished
          (write_range (write_range ranges n r) n (set_last last (write_range ranges n r n)))
          n
          k
        ≡ write_range ranges n (range_between inet k first last)
  write_both_finished ranges n k first last r e =
      write_last_finished (write_range ranges n r) n k last
      ∙ write_range_twice ranges n _ _
      ∙ ap (λ (x : Range). write_range ranges n (finish k (set_last last x)))
          (write_range_here ranges n r ∙ e)
      ∙ ap (write_range ranges n) (entry-range_between ranges n k first last)
