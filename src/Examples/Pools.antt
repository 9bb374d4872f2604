-- ===== src/Examples/Pools.antt =====
-- The theorems on addresses and the address pool, at concrete inputs.
use veil_python_stack.Prelude.{
  ℕ, ◌≡◌, ◌≢◌, refl, subst, false, none, some, List, [], ◌∷◌, String, arith, nat_eq, string_eq,
  ◌==◌, eq_iff,
}
use veil_python_stack.Prelude.Dict.{lookup, insert, remove}
use veil_python_stack.Errors.{ok, err, runtime_error}
use veil_python_stack.Ipv4.{
  Interface, parse_address, show_address, hosts, parse_octet, parse_interface,
}
use veil_python_stack.Ipv4.RoundTrip.{show_address-injective}
use veil_python_stack.Text.{split_on, show}
use veil_python_stack.Pool.{
  Pool, Lease, empty, new_lease, allocate, release, select, first_available, is_available,
  session_for_destination, normalize_preferred_address,
}
use veil_python_stack.Pool.Invariant.{
  IsValid, Operation, allocated, released, run, run-IsValid, run_distinct,
}
use veil_python_stack.Pool.Refinement.{Steps, assigned, run-Steps}
use veil_python_stack.Pool.Allocate.{allocate_routes, release_routes, allocate_exhausted}

-- 10.0.0.1/30: one client fits.
abbrev small : Interface
small = record { ip = 167772161; prefix = 30 }

abbrev operations : List Operation
operations = allocated 7 none ∷ released 7 ∷ allocated 8 (some "10.0.0.2") ∷ []

run-IsValid_example : IsValid (run (empty small) operations)
run-IsValid_example = run-IsValid small operations

abbrev the_lease : Lease
the_lease = new_lease (empty small) 8 "10.0.0.2"

abbrev full : Pool
full = record {
  interface = small;
  leases_by_session = (8, the_lease) ∷ [];
  sessions_by_ip = ("10.0.0.2", 8) ∷ [];
}

run-full : run (empty small) operations ≡ full
unfolding allocate release select first_available is_available hosts parse_address show_address show
    split_on lookup insert remove normalize_preferred_address run parse_octet parse_interface
run-full = refl

full-IsValid : IsValid full
full-IsValid = subst IsValid run-full (run-IsValid small operations)

leased : lookup 8 full.leases_by_session ≡ some the_lease
unfolding lookup
leased = refl

leased_in_run : lookup 8 (run (empty small) operations).leases_by_session ≡ some the_lease
leased_in_run = rw run-full leased

run_distinct_example : ◌≡◌ {A = ℕ} 8 8
run_distinct_example =
    run_distinct small operations 8 8 the_lease the_lease leased_in_run leased_in_run refl

-- 10.0.0.1/29 with one lease
abbrev larger : Interface
larger = record { ip = 167772161; prefix = 29 }

abbrev one : Pool
one = (allocate (empty larger) 8 none).1

abbrev second_lease : Lease
second_lease = new_lease (empty larger) 9 "10.0.0.3"

abbrev both : Pool
both = (allocate one 9 none).1

run-one : run (empty larger) (allocated 8 none ∷ []) ≡ one
unfolding run
run-one = refl

one-IsValid : IsValid one
one-IsValid = subst IsValid run-one (run-IsValid larger (allocated 8 none ∷ []))

allocated_second : allocate one 9 none ≡ (ok second_lease, both)
unfolding allocate release select first_available is_available hosts parse_address show_address show
    split_on lookup insert remove normalize_preferred_address run parse_octet parse_interface
allocated_second = refl

texts_differ : (a b : String) → (a == b) ≡ false → a ≢ b
texts_differ a b h e = ground (arith, h, e, eq_iff a b)

other_address : ◌≢◌ {A = String} "10.0.0.2" "10.0.0.3"
other_address = texts_differ "10.0.0.2" "10.0.0.3" refl

allocate_routes_example :
    (lookup 9 both.leases_by_session ≡ some second_lease)
    × (session_for_destination both (some "10.0.0.3") ≡ some 9)
    × (session_for_destination both (some "10.0.0.2")
        ≡ session_for_destination one (some "10.0.0.2"))
allocate_routes_example =
    allocate_routes one 9 none second_lease both "10.0.0.2" one-IsValid allocated_second
      other_address

unrelated_address : ◌≢◌ {A = String} "10.0.0.5" "10.0.0.2"
unrelated_address = texts_differ "10.0.0.5" "10.0.0.2" refl

release_routes_example :
    (lookup 8 (release full 8).leases_by_session ≡ none)
    × (session_for_destination (release full 8) (some "10.0.0.2") ≡ none)
    × (session_for_destination (release full 8) (some "10.0.0.5")
        ≡ session_for_destination full (some "10.0.0.5"))
release_routes_example =
    release_routes full 8 the_lease "10.0.0.5" full-IsValid leased unrelated_address

refused :
    allocate full 9 none
    ≡ (err (runtime_error "No free client addresses left in tunnel network"), full)
unfolding allocate release select first_available is_available hosts parse_address show_address show
    split_on lookup insert remove normalize_preferred_address run parse_octet parse_interface
refused = refl

client_address : show_address 167772162 ≢ show_address 167772161
client_address e =
    omega (arith, show_address-injective 167772162 167772161 (omega arith) (omega arith) e)

allocate_exhausted_example :
    (full ≡ full)
    × (lookup 9 full.leases_by_session ≡ none)
    × ((t : ℕ) × (lookup (show_address 167772162) full.sessions_by_ip ≡ some t))
allocate_exhausted_example =
    allocate_exhausted full 9 none (runtime_error "No free client addresses left in tunnel network")
      full 167772162 refused (omega arith) (omega arith) (omega arith) client_address

run-Steps_example : Steps small (λ s. none) operations (assigned (run (empty small) operations))
run-Steps_example = run-Steps small operations
