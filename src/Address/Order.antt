-- ===== src/Address/Order.antt =====
-- The comparison functions order their arguments, whatever the IP version.
use dhcpd_pools.Base.{◌≡◌, refl, IsPreorder}
use dhcpd_pools.Base.Comparing.{comp_nat-IsPreorder, bytes_compare-IsPreorder}
use dhcpd_pools.Data.{DhcpVersion, ipv_unknown, ipv4, ipv6, as_v4, as_v6, Lease}
use dhcpd_pools.Address.{ipcomp, leasecomp}

pub ipcomp-IsPreorder : (v : DhcpVersion) → IsPreorder (ipcomp v)
unfolding ipcomp
ipcomp-IsPreorder ipv_unknown = record { flip = λ a b. refl; trans = λ a b c h k. refl }
ipcomp-IsPreorder ipv4 = record {
  flip = λ a b. comp_nat-IsPreorder.flip (as_v4 a) (as_v4 b);
  trans = λ a b c. comp_nat-IsPreorder.trans (as_v4 a) (as_v4 b) (as_v4 c);
}
ipcomp-IsPreorder ipv6 = record {
  flip = λ a b. bytes_compare-IsPreorder.flip (as_v6 a) (as_v6 b);
  trans = λ a b c. bytes_compare-IsPreorder.trans (as_v6 a) (as_v6 b) (as_v6 c);
}

-- The order in which the leases are sorted is the order of their addresses.
pub leasecomp-ipcomp : (v : DhcpVersion) (a b : Lease) → leasecomp v a b ≡ ipcomp v a.ip b.ip
unfolding leasecomp ipcomp
leasecomp-ipcomp ipv_unknown a b = refl
leasecomp-ipcomp ipv4 a b = refl
leasecomp-ipcomp ipv6 a b = refl
