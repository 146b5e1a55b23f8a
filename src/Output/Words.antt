-- ===== src/Output/Words.antt =====
-- What printf and inet_ntop are documented to write: digits, letters and a few signs, and
-- for a number not nothing.
use dhcpd_pools.Base.{ℕ, Bool, true, List, [], ◌∷◌, ◌≡◌, refl, ap, ◌++◌}
use dhcpd_pools.Base.Text.{codes}
use dhcpd_pools.Base.Machine.{AllBytes, is_word_byte, is_written, AllBytes-imp}
use dhcpd_pools.Double.{Doubles}
use dhcpd_pools.Data.{Bytes, DhcpVersion, ipv_unknown, ipv4, ipv6, IpAddr, Lease}
use dhcpd_pools.Counting.{Networks}
use dhcpd_pools.Output.{Printf, Ntop, ntop_ipaddr, put_ethernet}

pub record IsPrintf {d : Doubles} (pf : Printf d) : Type 0 where
  pub g_written : (x : d.Double) → is_written (pf.percent_g x) ≡ true
  pub g_word : (x : d.Double) → AllBytes is_word_byte (pf.percent_g x)
  pub f3_word : (x : d.Double) → AllBytes is_word_byte (pf.percent_f3 x)

pub record IsNtop (ntop : Ntop) : Type 0 where
  pub v4_word : (n : ℕ) → AllBytes is_word_byte (ntop.ntop_v4 n)
  pub v6_word : (b : Bytes) → AllBytes is_word_byte (ntop.ntop_v6 b)

pub dashed :
    (a b : Bytes) → (((a ++ codes " ") ++ codes "-") ++ codes " ") ++ b ≡ a ++ codes " - " ++ b
dashed [] b = refl
dashed (c ∷ a) b = ap (λ t. c ∷ t) (dashed a b)

-- The bytes of all names of networks pass a test.
abbrev pub AllNames : (ℕ → Bool) → Networks → Type 0
AllNames p nets = (k : ℕ) → AllBytes p (nets k).name

-- So do those of the hardware addresses of leases.
abbrev pub AllEthernets : (ℕ → Bool) → List Lease → Type 0
AllEthernets p [] = Unit {0}
AllEthernets p (l ∷ leases) = AllBytes p (put_ethernet l.ethernet) × AllEthernets p leases

module _ (p : ℕ → Bool) (words : (c : ℕ) → is_word_byte c ≡ true → p c ≡ true) where
  pub AllBytes-ntop :
      (ntop : Ntop)
      → IsNtop ntop
      → (v : DhcpVersion) (ip : IpAddr) → AllBytes p (ntop_ipaddr ntop v ip)
  unfolding ntop_ipaddr
  AllBytes-ntop ntop n ipv_unknown ip = tt
  AllBytes-ntop ntop n ipv4 ip = AllBytes-imp is_word_byte p words _ (n.v4_word _)
  AllBytes-ntop ntop n ipv6 ip = AllBytes-imp is_word_byte p words _ (n.v6_word _)

  module _ {d : Doubles} (pf : Printf d) (w : IsPrintf pf) (x : d.Double) where
    pub AllBytes-g : AllBytes p (pf.percent_g x)
    AllBytes-g = AllBytes-imp is_word_byte p words _ (w.g_word x)

    pub AllBytes-f3 : AllBytes p (pf.percent_f3 x)
    AllBytes-f3 = AllBytes-imp is_word_byte p words _ (w.f3_word x)
