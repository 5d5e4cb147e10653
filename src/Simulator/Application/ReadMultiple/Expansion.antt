-- ===== src/Simulator/Application/ReadMultiple/Expansion.antt =====
-- expandPropertyReferences of simulator/application.go, and what the device reads under its result.
use gobac.Prelude.{ℕ, List, [], ◌∷◌, ◌≡◌, ◌↔◌, refl, map, true, All}
use gobac.Prelude.{Member, All-Member, Member-map}
use gobac.Prelude.Maps.{number_key}
use gobac.Simulator.Errors
use gobac.Simulator.Property.{Value}
use gobac.Simulator.Object.{Object}
use gobac.Types.GoValue.{ObjectRef}
use gobac.Simulator.Device.{Device, find_object, read_property}
use gobac.Simulator.Services.Convert.{PropertyReference}
use gobac.Simulator.Services.ReadMultiple.{ReadAccessSpecification}
use gobac.Simulator.Application.ReadMultiple.{
  sort_ints, all_ids, plain_reference, asks_all, expand_property_references,
}
use gobac.Simulator.Application.ReadMultiple.Sorting.{
  sort_ints-All, Member-sort_ints, IsAscending, sort_ints-IsAscending,
}
use gobac.Simulator.Application.ReadMultiple.Readable.{Present, all_ids-Present}
use gobac.Simulator.Application.ReadMultiple.Complete.{all_ids-Member}

-- A reference that the device reads.
abbrev pub Reads : Device → ObjectRef → PropertyReference → Type 0
Reads d object r =
    (values : List Value) × (read_property d object r.id r.array_index ≡ Errors.ok values)

references-Read :
    (d : Device) (object : ObjectRef) (o : Object) (ids : List ℕ)
    → find_object d object ≡ Errors.ok o
    → All (Present o) ids
    → All (Reads d object) (map plain_reference ids)
unfolding read_property
references-Read d object o [] found_o h = tt
references-Read d object o (id ∷ ids) found_o ((values, e), h) =
    ((values, rw found_o e), references-Read d object o ids found_o h)

Reads-Present :
    (d : Device) (object : ObjectRef) (o : Object) (id : ℕ)
    → find_object d object ≡ Errors.ok o
    → Reads d object (plain_reference id)
    → Present o id
unfolding read_property
Reads-Present d object o id found_o (values, e) = (values, rw found_o at e)

-- Where a specification names the one property ALL, of an object that the device has, the expansion
-- is a list of references without an index, by ascending identifier; the device reads each of them without an
-- error, and a property stands in the list exactly where the device reads it without an error.
pub expand-Reads :
    (d : Device) (s : ReadAccessSpecification) (o : Object) (id : ℕ)
    → asks_all s.properties ≡ true
    → find_object d s.object ≡ Errors.ok o
    → ((ids : List ℕ) × (expand_property_references d s ≡ map plain_reference ids)
        × IsAscending ids)
      × All (Reads d s.object) (expand_property_references d s)
      × (Member (plain_reference id) (expand_property_references d s)
          ↔ Reads d s.object (plain_reference id))
unfolding expand_property_references
expand-Reads d s o id all found_o =
    let ids = sort_ints (all_ids o) in
    let reads =
      references-Read d s.object o ids found_o (sort_ints-All (Present o) _ (all_ids-Present o)) in
    rw (all, found_o)
      (
        (ids, refl, sort_ints-IsAscending (all_ids o)),
        reads,
        (
          (λ m. All-Member (Reads d s.object) (plain_reference id) _ reads m),
          (λ r.
              let present = Reads-Present d s.object o id found_o r in
              Member-map plain_reference id ids
                (Member-sort_ints id (all_ids o) (all_ids-Member o id present))),
        ),
      )
