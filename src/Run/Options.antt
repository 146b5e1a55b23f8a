-- ===== src/Run/Options.antt =====
-- What the options can make of the configuration.
use dhcpd_pools.Base.{◌≡◌, refl, ℕ, ◌<◌, List, [], ◌∷◌, arith}
use dhcpd_pools.Base.Text.{char_at}
use dhcpd_pools.Base.Result.{Result, ok, err, ◌>>=◌}
use dhcpd_pools.Double.{Doubles}
use dhcpd_pools.Run.{
  Stop, Argument, config, leases, format, sort, output, limit, warning, critical, warn_count,
  crit_count, minsize, reverse_order, snet_alarms, perfdata, all_as_shared, version, help, unknown,
  Settings, Strtod, return_limit, strtod_or_err, sort_fields, set_option, set_options,
}

-- Both limits fit into their bit fields of three bits.
abbrev pub IsMasked : {d : Doubles} → Settings d → Type 0
IsMasked s = (s.limits.header_limit < 8) × (s.limits.number_limit < 8)

abbrev pub MaskedResult : {d : Doubles} → Result Stop (Settings d) → Type 0
MaskedResult (ok s) = IsMasked s
MaskedResult (err e) = Unit {0}

module _ (d : Doubles) (strtod : Strtod d) where
  MaskedResult-bind :
      {A : Type 0} (r : Result Stop A) (f : A → Result Stop (Settings d))
      → ((a : A) → r ≡ ok a → MaskedResult (f a))
      → MaskedResult (r >>= f)
  MaskedResult-bind (ok a) f h = h a refl
  MaskedResult-bind (err e) f h = tt

  return_limit-lt : (c n : ℕ) → return_limit c ≡ ok n → n < 8
  unfolding return_limit
  return_limit-lt c n e = ground arith

  set_option-Masked :
      (a : Argument) (s : Settings d) → IsMasked s → MaskedResult (set_option d strtod a s)
  unfolding set_option
  set_option-Masked (config optarg) s h = h
  set_option-Masked (leases optarg) s h = h
  set_option-Masked (format optarg) s h = h
  set_option-Masked (sort optarg) s h = MaskedResult-bind (sort_fields optarg) _ (λ sorts e. h)
  set_option-Masked reverse_order s h = h
  set_option-Masked (output optarg) s h = h
  set_option-Masked (limit optarg) s h =
      MaskedResult-bind (return_limit (char_at optarg 0)) _ (λ m e.
        MaskedResult-bind (return_limit (char_at optarg 1)) _
          (λ n f. (return_limit-lt (char_at optarg 0) m e, return_limit-lt (char_at optarg 1) n f)))
  set_option-Masked snet_alarms s h = h
  set_option-Masked (warning optarg) s h =
      MaskedResult-bind (strtod_or_err d strtod optarg) _ (λ x e. h)
  set_option-Masked (critical optarg) s h =
      MaskedResult-bind (strtod_or_err d strtod optarg) _ (λ x e. h)
  set_option-Masked (warn_count optarg) s h =
      MaskedResult-bind (strtod_or_err d strtod optarg) _ (λ x e. h)
  set_option-Masked (crit_count optarg) s h =
      MaskedResult-bind (strtod_or_err d strtod optarg) _ (λ x e. h)
  set_option-Masked (minsize optarg) s h =
      MaskedResult-bind (strtod_or_err d strtod optarg) _ (λ x e. h)
  set_option-Masked perfdata s h = h
  set_option-Masked all_as_shared s h = h
  set_option-Masked version s h = tt
  set_option-Masked help s h = tt
  set_option-Masked unknown s h = tt

  -- Whatever options are given, the two limits fit into their bit fields, or the program stops; they
  -- have to fit before.
  pub set_options-Masked :
      (args : List Argument) (s : Settings d)
      → IsMasked s
      → MaskedResult (set_options d strtod args s)
  unfolding set_options
  set_options-Masked [] s h = h
  set_options-Masked (a ∷ args) s h =
      MaskedResult-bind (set_option d strtod a s) (set_options d strtod args)
        (λ s' e. set_options-Masked args s' (rw e at (set_option-Masked a s h)))
