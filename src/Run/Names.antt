-- ===== src/Run/Names.antt =====
-- src/dhcpd-pools.c: from the two files to the table that is printed, no name of a network gets a quote.
use dhcpd_pools.Base.{
  ◌≡◌, refl, sym, ap, ◌∙◌, ℕ, zero, suc, Bool, true, false, List, [], ◌∷◌, Option, none, some, inl,
  inr, Option-cases, if◌then◌else◌,
}
use dhcpd_pools.Base.Machine.{unquoted}
use dhcpd_pools.Base.Result.{Result, ok, err}
use dhcpd_pools.Double.{Doubles}
use dhcpd_pools.Data.{Bytes, Range, Lease, DhcpVersion, IpAddr}
use dhcpd_pools.Address.{Inet}
use dhcpd_pools.Counting.{Networks, do_counting}
use dhcpd_pools.Counting.Names.{SameNames, do_counting-SameNames}
use dhcpd_pools.Sort.{Comparer, mergesort_ranges, flip_ranges}
use dhcpd_pools.Conf.State.{Failure, Globals}
use dhcpd_pools.Conf.Names.Steps.{parse_config-AllNames}
use dhcpd_pools.Leases.{Uthash, LeaseFile}
use dhcpd_pools.Output.{Sheet}
use dhcpd_pools.Output.Words.{AllNames}
use dhcpd_pools.Run.{Settings, Qsort, prepare_data, analyse}
use dhcpd_pools.Run.Job.{
  prepare_memory, entries, config_of, leases_of, sheet_of, analysed, with_leases, with_config, job,
}

-- What `-r` does to the tables leaves the networks alone.
reversed-networks :
    (reverse_order : Bool) (sorted out : List Range) (nets final : Networks)
    → (if reverse_order
        then (let o : Option (List Range × Networks) = elim (flip_ranges sorted) [
          | none ↦ none
          | some flipped ↦ some (flipped, nets)
        ] in
            o)
        else some (sorted, nets))
      ≡ some (out, final)
    → nets ≡ final
reversed-networks false sorted out nets final e = cc
reversed-networks true sorted out nets final e = elim (Option-cases (flip_ranges sorted)) [
  | inl f ↦ cc (rw f at e)
  | inr (flipped, f) ↦ cc (rw f at e)
]

analyse-SameNames :
    (u : Uthash) (qsort : Qsort) (v : DhcpVersion) (d : Doubles) (sorts : List (Option Comparer))
    (reverse_order : Bool) (table : List Lease) (ranges out : List Range) (nets final : Networks)
    → analyse u qsort v d sorts reverse_order table ranges nets ≡ some (out, final)
    → SameNames final nets
unfolding analyse prepare_data
analyse-SameNames u qsort v d sorts reverse_order table ranges out nets final e k =
    let (leases', ranges') = prepare_data u qsort v table ranges in
    let counted = do_counting d.overflow v leases' ranges' nets in
    let sorted : List Range = elim sorts [
      | [] ↦ counted.0
      | ◌∷◌ p rest ↦ mergesort_ranges d v counted.1 (p ∷ rest) counted.0
    ] in
    ap (λ (n : Networks). (n k).name)
      (sym (reversed-networks reverse_order sorted out counted.1 final e))
    ∙ do_counting-SameNames d.overflow v leases' ranges' nets k

SameNames-unquoted : (a b : Networks) → SameNames a b → AllNames unquoted b → AllNames unquoted a
SameNames-unquoted a b same h k = rw (same k) (h k)

pub prepare_memory-AllNames :
    (networks : Networks) (ranges : ℕ → Range)
    → AllNames unquoted networks
    → AllNames unquoted (prepare_memory networks ranges).shared_networks
unfolding prepare_memory
prepare_memory-AllNames networks ranges h zero = (
  refl,
  (refl, (refl, (refl, (refl, (refl, (refl, (refl, (refl, (refl, (refl, (refl, tt))))))))))),
)
prepare_memory-AllNames networks ranges h (suc k) = h (suc k)

module _ (inet : Inet) (u : Uthash) (qsort : Qsort) (limit fuel : ℕ) (files : Bytes → Option Bytes)
    (garbage : IpAddr) (d : Doubles) (settings : Settings d) (print_mac_addreses : Bool) where
  analysed-AllNames :
      (g : Globals) (l : LeaseFile) (o : Option (List Range × Networks)) (sheet : Sheet)
      → ((out : List Range) (final : Networks)
          → o ≡ some (out, final)
          → SameNames final g.shared_networks)
      → AllNames unquoted g.shared_networks
      → analysed inet u qsort limit fuel files garbage d settings print_mac_addreses g l o
        ≡ ok sheet
      → AllNames unquoted sheet.shared_networks
  unfolding analysed sheet_of
  analysed-AllNames g l none sheet same h e = cc
  analysed-AllNames g l (some (out, final)) sheet same h e =
      let nets : final ≡ sheet.shared_networks = cc in
      rw nets at (SameNames-unquoted final g.shared_networks (same out final refl) h)

  -- The names that are printed hold no quote.
  pub job-AllNames :
      (memory : Globals) (sheet : Sheet)
      → AllNames unquoted memory.shared_networks
      → job inet u qsort limit fuel files garbage d settings print_mac_addreses memory ≡ ok sheet
      → AllNames unquoted sheet.shared_networks
  unfolding job with_config with_leases
  job-AllNames memory sheet h e =
      parsed (config_of inet u qsort limit fuel files garbage d settings print_mac_addreses memory)
        (λ g.
          parse_config-AllNames inet limit files settings.all_as_shared garbage fuel true
            settings.dhcpdconf_file 0 memory g h)
        e
    where
      tabulated :
          (g : Globals) (leases : Option Bytes)
          → AllNames unquoted g.shared_networks
          → with_leases inet u qsort limit fuel files garbage d settings print_mac_addreses g leases
            ≡ ok sheet
          → AllNames unquoted sheet.shared_networks
      tabulated g none named k = cc
      tabulated g (some content) named k =
          let l =
            leases_of inet u qsort limit fuel files garbage d settings print_mac_addreses g
              content in
          analysed-AllNames g l
            (analyse u qsort l.ip_version d settings.sorts settings.reverse_order l.leases
              (entries g.ranges 0 g.num_ranges) g.shared_networks)
            sheet
            (λ out final.
              analyse-SameNames u qsort l.ip_version d settings.sorts settings.reverse_order
                l.leases (entries g.ranges 0 g.num_ranges) out g.shared_networks final)
            named k

      parsed :
          (r : Result Failure Globals)
          → ((g : Globals) → r ≡ ok g → AllNames unquoted g.shared_networks)
          → with_config inet u qsort limit fuel files garbage d settings print_mac_addreses r
            ≡ ok sheet
          → AllNames unquoted sheet.shared_networks
      parsed (err f) named k = cc
      parsed (ok g) named k = tabulated g (files settings.dhcpdlease_file) (named g refl) k
