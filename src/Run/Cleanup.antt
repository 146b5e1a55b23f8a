-- ===== src/Run/Cleanup.antt =====
-- src/other.c: `clean_up`, and the loop of `delete_all_leases` in src/hash.c that frees the leases.
--
-- A block is named by the pointer that leads to it; a lease by its place in the table, and a sort by its
-- place in the list.
use dhcpd_pools.Base.{
  ℕ, zero, suc, ◌+◌, ◌%◌, ◌^◌, Bool, List, [], ◌∷◌, ◌++◌, Option, none, some, if◌then◌else◌,
}
use dhcpd_pools.Data.{Lease}

pub data Block : Type 0 where
  dhcpdconf_file dhcpdlease_file output_file ranges shared_networks : Block
  name ethernet lease sort : (place : ℕ) → Block

-- `for (i = 0; i < num_shared_networks; i++) free((shared_networks + i)->name);`
unfoldable pub free_names : (i rounds : ℕ) → List Block
free_names i zero = []
free_names i (suc rounds) = name i ∷ free_names (suc i) rounds

-- delete_all_leases, where HASH_ITER is defined. A lease without a hardware address has no block for it, and
-- `free` of the null pointer does nothing.
unfoldable pub free_leases : (i : ℕ) → List Lease → List Block
free_leases i [] = []
free_leases i (l ∷ leases) =
    let rest = lease i ∷ free_leases (suc i) leases in
    elim l.ethernet [ none ↦ rest | some address ↦ ethernet i ∷ rest ]

-- The loop over `config.sorts`.
unfoldable pub free_sorts : {A : Type 0} → (i : ℕ) → List A → List Block
free_sorts i [] = []
free_sorts i (cur ∷ next) = sort i ∷ free_sorts (suc i) next

-- The blocks that are freed, in their order; `none` is the exit with a message.
unfoldable pub clean_up :
    {A : Type 0}
    → (flushes : Bool) (leases : List Lease) (num_shared_networks : ℕ) (sorts : List A)
    → Option (List Block)
unfolding free_names free_leases free_sorts
clean_up flushes leases num_shared_networks sorts =
    if flushes
    then some (
        dhcpdconf_file
        ∷ dhcpdlease_file
        ∷ output_file
        ∷ ranges
        ∷ (free_leases 0 leases
            ++ (free_names 0 ((num_shared_networks + 1) % 2 ^ 32)
                ++ (shared_networks ∷ free_sorts 0 sorts))))
    else none
