-- ===== src/Suite/Fits.antt =====
-- The machines of the boots fit their host, and have the CPUs that their command lines give them.
use drtm_tests.Prelude.{
  ℕ, ◌+◌, ◌*◌, ◌^◌, ◌≤◌, ◌≡◌, refl, ap, ◌∙◌, sym, Bool, true, false, Option, none, some, List, [],
  ◌∷◌, ◌++◌, Text, txt, text_eq, ◌is◌, if◌then◌else◌, arith, Result, ok, show, ◌⊎◌, inl, inr, ◌>>=◌,
  Bool-cases, every, split_on, not,
}
use drtm_tests.Machine.{
  Asked, default_smp, default_cpu, default_mem, intel_cpu, intel_mem, intel_iommu, memory, options,
  machine_args, common_args, trace_args, psp_args, launch_traces, intel_traces, psp_device, chosen,
}
use drtm_tests.Suite.Machines.{
  rpartition, smp_values, last_of, cpu_count, count_items, smp, workers, Pages, pages,
  event_log_range,
}

-- A host has room for the boots that run at once, two CPUs and a vendor's memory for each; one boot runs
-- on any host.
pub workers_fit :
    (cpus : Option ℕ) (available_kib guest_gib : ℕ)
    → (guest_gib ≡ 2) ⊎ (guest_gib ≡ 3)
    → (1 ≤ workers cpus available_kib guest_gib)
      × ((workers cpus available_kib guest_gib ≡ 1)
          ⊎ ((workers cpus available_kib guest_gib * default_smp ≤ cpu_count cpus)
              × (workers cpus available_kib guest_gib * guest_gib * 2 ^ 20 ≤ available_kib)))
unfolding workers
workers_fit none available_kib guest_gib (inl e) = ground arith
workers_fit none available_kib guest_gib (inr e) = ground arith
workers_fit (some n) available_kib guest_gib (inl e) = ground arith
workers_fit (some n) available_kib guest_gib (inr e) = ground arith

-- The pages that `dd` reads are the log's range, no byte less and none more.
pub event_log_range_lem :
    (base end : ℕ) (r : Pages)
    → event_log_range (some (base, end)) ≡ ok (pages r)
    → (r.skip * 4096 ≡ base) × (r.skip * 4096 + r.count * 4096 ≡ end)
unfolding event_log_range
event_log_range_lem base end r h = ground arith

smp_values_behind :
    (arg : Text) (args : List Text)
    → (arg is txt "-smp") ≡ false
    → smp_values (arg ∷ args) ≡ smp_values args
unfolding smp_values
smp_values_behind arg [] h = refl
smp_values_behind arg (value ∷ args) h = ground arith

-- No argument is the option itself.
abbrev pub is_plain : List Text → Bool
is_plain args = every (λ arg. not (arg is txt "-smp")) args

smp_values-append :
    (plain args : List Text) → is_plain plain ≡ true → smp_values (plain ++ args) ≡ smp_values args
smp_values-append [] args h = refl
smp_values-append (arg ∷ plain) args h =
    smp_values_behind arg (plain ++ args) (ground arith)
    ∙ smp_values-append plain args (ground arith)

-- What `_boot` asks a machine to be: the vendor's CPU and memory, and two CPUs.
abbrev pub asked : Text → Text → Bool → List Text → Asked
asked image vendor psp extra = record {
  image = image;
  cpu = none;
  smp = default_smp;
  mem = none;
  strict = true;
  snapshot = true;
  psp = psp;
  extra = some extra;
  vendor = vendor;
}

machine_args_plain :
    (image vendor : Text) (psp : Bool) (extra : List Text)
    → is_plain (machine_args (asked image vendor psp extra)) ≡ true
unfolding machine_args chosen intel_cpu intel_iommu default_cpu text_eq txt
machine_args_plain image vendor psp extra = elim (Bool-cases (vendor is txt "intel")) [
  | inl e ↦ ground arith
  | inr e ↦ ground arith
]

-- The arguments behind the CPU count
abbrev behind_smp : Text → Text → List Text
behind_smp image mem =
    txt "-m"
    ∷ mem
    ∷ txt "-drive"
    ∷ (txt "file=" ++ (image ++ (txt ",format=raw,if=none,id=hd,snapshot=" ++ txt "on")))
    ∷ txt "-device"
    ∷ txt "ide-hd,drive=hd"
    ∷ txt "-vga"
    ∷ txt "none"
    ∷ txt "-nic"
    ∷ txt "none"
    ∷ txt "-d"
    ∷ txt "guest_errors"
    ∷ []

behind_smp_plain :
    (image vendor : Text) → is_plain (show default_smp ∷ behind_smp image (memory vendor)) ≡ true
unfolding memory intel_mem default_mem show text_eq txt
behind_smp_plain image vendor = elim (Bool-cases (vendor is txt "intel")) [
  | inl e ↦ ground arith
  | inr e ↦ ground arith
]

smp_values-common_args :
    (image vendor : Text) (psp : Bool) (extra args : List Text)
    → smp_values (common_args (asked image vendor psp extra) ++ args)
      ≡ show default_smp ∷ smp_values args
unfolding smp_values common_args chosen text_eq txt
smp_values-common_args image vendor psp extra args =
    ap (λ values. show default_smp ∷ values)
      (smp_values-append (show default_smp ∷ behind_smp image (memory vendor)) args
        (behind_smp_plain image vendor))

traces_plain :
    is_plain (trace_args intel_traces) ≡ true × (is_plain (trace_args launch_traces) ≡ true)
unfolding trace_args intel_traces launch_traces text_eq txt
traces_plain = (refl, refl)

psp_plain : (psp : Bool) → is_plain (psp_args psp) ≡ true
unfolding psp_device text_eq txt
psp_plain true = refl
psp_plain false = refl

options_ok :
    (image vendor : Text) (psp : Bool) (extra from_env : List Text) {args : List Text}
    → options (asked image vendor psp extra) from_env ≡ ok args
    → args
      ≡ machine_args (asked image vendor psp extra)
        ++ (common_args (asked image vendor psp extra)
            ++ (psp_args psp
                ++ (trace_args (if vendor is txt "intel" then intel_traces else launch_traces)
                    ++ extra)))
unfolding options
options_ok image vendor psp extra from_env h = ground arith

traces_of_plain :
    (vendor : Text)
    → is_plain (trace_args (if vendor is txt "intel" then intel_traces else launch_traces)) ≡ true
traces_of_plain vendor = elim (Bool-cases (vendor is txt "intel")) [
  | inl e ↦
      ap (λ b. is_plain (trace_args (if b then intel_traces else launch_traces))) e ∙ traces_plain.0
  | inr e ↦
      ap (λ b. is_plain (trace_args (if b then intel_traces else launch_traces))) e ∙ traces_plain.1
]

smp_values-options :
    (image vendor : Text) (psp : Bool) (extra from_env : List Text) {args : List Text}
    → options (asked image vendor psp extra) from_env ≡ ok args
    → smp_values args ≡ show default_smp ∷ smp_values extra
smp_values-options image vendor psp extra from_env {args} h =
    let traces = trace_args (if vendor is txt "intel" then intel_traces else launch_traces) in
    let behind = psp_args psp ++ (traces ++ extra) in
    ap smp_values (options_ok image vendor psp extra from_env h)
    ∙ smp_values-append (machine_args (asked image vendor psp extra))
        (common_args (asked image vendor psp extra) ++ behind)
        (machine_args_plain image vendor psp extra)
    ∙ smp_values-common_args image vendor psp extra behind
    ∙ ap (λ values. show default_smp ∷ values)
        (smp_values-append (psp_args psp) (traces ++ extra) (psp_plain psp)
          ∙ smp_values-append traces extra (traces_of_plain vendor))

two_cpus :
    (int : Text → Result ℕ)
    → int (show default_smp) ≡ ok default_smp
    → count_items int 1 (split_on b',' (show default_smp)) ≡ ok default_smp
unfolding count_items rpartition split_on show text_eq txt
two_cpus int reads = reads

-- The CPUs that a boot's test is told of, on the options of any machine with any arguments behind: what the last
-- `-smp` of the arguments behind says, and two if there is none, where `int` reads a 2 as 2.
pub smp-options :
    (int : Text → Result ℕ) (image vendor : Text) (psp : Bool) (extra from_env : List Text)
    {args : List Text}
    → int (show default_smp) ≡ ok default_smp
    → options (asked image vendor psp extra) from_env ≡ ok args
    → smp int args ≡ (elim (smp_values extra) [ [] ↦ ok default_smp | _ ∷ _ ↦ smp int extra ])
unfolding smp
smp-options int image vendor psp extra from_env {args} reads h =
    ap (λ values. last_of values >>= λ value. count_items int 1 (split_on b',' value))
      (smp_values-options image vendor psp extra from_env h)
    ∙ cases (smp_values extra) refl
  where
    cases :
        (values : List Text)
        → smp_values extra ≡ values
        → (last_of (show default_smp ∷ values) >>= λ value. count_items int 1 (split_on b',' value))
          ≡ (elim values [ [] ↦ ok default_smp | _ ∷ _ ↦ smp int extra ])
    cases [] e = two_cpus int reads
    cases (value ∷ values) e =
        ap (λ vs. last_of vs >>= λ v. count_items int 1 (split_on b',' v)) (sym e)
