-- ===== src/Crd/Resources.antt =====
-- titus_isolate/crd/model/resources.py. The environment variable of the instance's type is an argument.
use titus_isolate.Prelude.{
  ℕ, ◌+◌, ◌-◌, String, [], ◌∷◌, Option, none, some, if◌then◌else◌, leb, string_eq, Dict, lookup, ℤ,
  pos, negsuc,
}
use titus_isolate.Pod.{Resources}

abbrev pub pos_part : ℤ → ℕ
pos_part (pos n) = n
pos_part (negsuc n) = 0

abbrev pub neg_part : ℤ → ℕ
neg_part (pos n) = 0
neg_part (negsuc n) = n + 1

-- a - b
abbrev pub sub_ℕ : ℕ → ℕ → ℤ
sub_ℕ a b = if leb b a then pos (a - b) else negsuc (b - a - 1)

infixl 65 ◌+ℤ◌
unfoldable pub ◌+ℤ◌ : ℤ → ℤ → ℤ
a +ℤ b = sub_ℕ (pos_part a + pos_part b) (neg_part a + neg_part b)

-- `Resources()`
abbrev pub no_resources : Resources
no_resources = record { cpu = pos 0; mem = pos 0; disk = pos 0; net = pos 0; gpu = pos 0 }

-- `Resources.__add__`
unfoldable pub add_resources : Resources → Resources → Resources
unfolding ◌+ℤ◌
add_resources a b = record {
  cpu = a.cpu +ℤ b.cpu;
  mem = a.mem +ℤ b.mem;
  disk = a.disk +ℤ b.disk;
  net = a.net +ℤ b.net;
  gpu = a.gpu +ℤ b.gpu;
}

abbrev machine : (cpu gpu mem disk net : ℕ) → Resources
machine cpu gpu mem disk net = record {
  cpu = pos cpu;
  mem = pos mem;
  disk = pos disk;
  net = pos net;
  gpu = pos gpu;
}

abbrev pub machine_types : Dict String Resources
machine_types =
    ("m5.metal", machine 96 0 374784 1637376 25000)
    ∷ ("r5.metal", machine 96 0 761856 1571840 25000)
    ∷ ("g4dn.metal", machine 96 8 374784 1571840 100000)
    ∷ ("p3.16xlarge", machine 64 8 480256 1047552 25000)
    ∷ ("g4dn.4xlarge", machine 16 1 53453 1047552 20000)
    ∷ ("g4dn.8xlarge", machine 32 1 115712 1047552 50000)
    ∷ ("r5.24xlarge", machine 96 0 753664 1571840 23000)
    ∷ ("m5.24xlarge", machine 96 0 366592 1637376 23000)
    ∷ []

-- `populate_from_capacity_env()`: without a known type all but `gpu` is set to 0.
unfoldable pub populate_from_capacity_env : Option String → Resources → Resources
populate_from_capacity_env instance_type r =
    let cleared = record r { cpu = pos 0; mem = pos 0; disk = pos 0; net = pos 0 } in
    elim instance_type [
      | none ↦ cleared
      | some t ↦ elim (lookup t machine_types) [ none ↦ cleared | some m ↦ m ]
    ]

unfoldable pub to_dict : Resources → Dict String ℤ
to_dict r =
    ("cpu", r.cpu)
    ∷ ("memMB", r.mem)
    ∷ ("netMbps", r.net)
    ∷ ("diskMB", r.disk)
    ∷ ("gpu", r.gpu)
    ∷ []
