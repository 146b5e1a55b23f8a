-- ===== src/Output/Json/Loops.antt =====
-- The loops of the JSON text, read back: the commas between the items of a list.
use dhcpd_pools.Base.{
  ℕ, suc, ◌+◌, ◌<◌, Bool, true, false, List, [], ◌∷◌, ◌++◌, ◌≡◌, refl, arith, inl, inr, Bool-cases,
  length, ltb, lt→ltb,
}
use dhcpd_pools.Base.Text.{codes}
use dhcpd_pools.Base.Machine.{Runs, run_then, AllBytes}
use dhcpd_pools.Double.{Doubles}
use dhcpd_pools.Data.{Bytes, Lease}
use dhcpd_pools.Output.{Printf, Ntop, Sheet, format, is_active, put_ethernet}
use dhcpd_pools.Output.Words.{IsPrintf, IsNtop, AllNames, AllEthernets}
use dhcpd_pools.Output.Json.{json_lease, json_leases, lease_comma, json_end, json_items}
use dhcpd_pools.Output.Json.Reader.{
  Json, object, Values, empty_list, and_value, Members, and_member, Frame, in_array, in_object,
  Reader, value_next, value_done, read, is_text_byte,
}
use dhcpd_pools.Output.Json.Pieces.{lease_read}
use dhcpd_pools.Output.Json.Tree.{lease_value, and_leases, and_all}

ltb_self : (n : ℕ) → ltb n n ≡ false
ltb_self n = ground arith

-- The reader in an array or an object, behind what it has read of it.
abbrev pub array_open : Values → List Frame → Reader
array_open empty_list frames = value_next true (in_array empty_list ∷ frames)
array_open (and_value values v) frames = value_done v (in_array values ∷ frames)

module _ {d : Doubles} (pf : Printf d) (words : IsPrintf pf) (ntop : Ntop) (addresses : IsNtop ntop)
    (s : Sheet) (names : AllNames is_text_byte s.shared_networks) where
  -- The end of a round, with a comma unless it is the last.
  more_read :
      (num i : ℕ) (v : Json) (members : Members) (key : Bytes) (items : Values)
      (frames : List Frame)
      → (i + 1) < num
      → Runs read
          (value_done v (in_object members key ∷ in_array items ∷ frames))
          (json_end d pf ntop s num i)
          (value_next false
            (in_array (and_value items (object (and_member members key v))) ∷ frames))
  unfolding json_end format read
  more_read num i v members key items frames h =
      rw (lt→ltb (i + 1) num h) (record { reaches = refl })

  last_read :
      (i : ℕ) (v : Json) (members : Members) (key : Bytes) (items : Values) (frames : List Frame)
      → Runs read
          (value_done v (in_object members key ∷ in_array items ∷ frames))
          (json_end d pf ntop s (i + 1) i)
          (value_done (object (and_member members key v)) (in_array items ∷ frames))
  unfolding json_end format read
  last_read i v members key items frames = rw (ltb_self (i + 1)) (record { reaches = refl })

  -- A loop whose rounds each read as an object, but for its brace.
  module _ {ℓ} {A : Type ℓ} (item : A → Bytes) (members : A → Members) (v : A → Json) (key : Bytes)
      (frames : List Frame) where
    abbrev pub value : A → Json
    value x = object (and_member (members x) key (v x))

    abbrev pub ItemReads : A → Type 0
    ItemReads x =
        (items : Values) (first : Bool)
        → Runs read (value_next first (in_array items ∷ frames)) (item x)
            (value_done (v x) (in_object (members x) key ∷ in_array items ∷ frames))

    items_read :
        (reads : (x : A) → ItemReads x) (x : A) (xs : List A) (num i : ℕ) (items : Values)
        (first : Bool)
        → num ≡ i + suc (length xs)
        → Runs read
            (value_next first (in_array items ∷ frames))
            (json_items d pf ntop s item num i (x ∷ xs))
            (array_open (and_all pf ntop s value items (x ∷ xs)) frames)
    unfolding json_items
    items_read reads x [] num i items first h = run_then (item x) (reads x items first) (
        rw h (
          run_then (json_end d pf ntop s (i + 1) i) (last_read i (v x) (members x) key items frames)
            (record { reaches = refl })))
    items_read reads x (y ∷ ys) num i items first h = run_then (item x) (reads x items first) (
        run_then (json_end d pf ntop s num i)
          (more_read num i (v x) (members x) key items frames (omega arith))
          (items_read reads y ys num (suc i) (and_value items (value x)) false (omega arith)))

    pub loop_read :
        ((x : A) → ItemReads x)
        → (xs : List A) (num : ℕ) → num ≡ length xs
        → Runs read
            (array_open empty_list frames)
            (json_items d pf ntop s item num 0 xs)
            (array_open (and_all pf ntop s value empty_list xs) frames)
    unfolding json_items
    loop_read reads [] num h = record { reaches = refl }
    loop_read reads (x ∷ xs) num h = items_read reads x xs num 0 empty_list true (omega arith)

  -- The flag of the loop on the leases, from what the array holds.
  abbrev pub flag : Values → ℕ
  flag empty_list = 0
  flag (and_value items v) = 1

  comma_read :
      (l : Lease) (items : Values) (frames : List Frame)
      → AllBytes is_text_byte (put_ethernet l.ethernet)
      → Runs read
          (array_open items frames)
          (lease_comma d pf ntop s (flag items) ++ json_lease d pf ntop s l)
          (array_open (and_value items (lease_value pf ntop s l)) frames)
  unfolding lease_comma read
  comma_read l empty_list frames h =
      lease_read pf words ntop addresses s names l empty_list frames true h
  comma_read l (and_value items v) frames h =
      run_then (codes ",") (record { reaches = refl })
        (lease_read pf words ntop addresses s names l (and_value items v) frames false h)

  pub leases_read :
      (leases : List Lease) (items : Values) (frames : List Frame)
      → AllEthernets is_text_byte leases
      → Runs read
          (array_open items frames)
          (json_leases d pf ntop s (flag items) leases)
          (array_open (and_leases pf ntop s items leases) frames)
  unfolding json_leases
  leases_read [] items frames h = record { reaches = refl }
  leases_read (l ∷ leases) items frames h = elim (Bool-cases (is_active l.type)) [
    | inl e ↦ rw e (
        run_then (lease_comma d pf ntop s (flag items) ++ json_lease d pf ntop s l)
          (comma_read l items frames h.0)
          (leases_read leases (and_value items (lease_value pf ntop s l)) frames h.1))
    | inr e ↦ rw e (leases_read leases items frames h.1)
  ]
