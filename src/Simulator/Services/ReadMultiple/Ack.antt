-- ===== src/Simulator/Services/ReadMultiple/Ack.antt =====
-- encodeReadPropertyMultipleResult of simulator/services.go and the encoder of
-- bacnet/pdu/read_property_multiple.go.
use gobac.Prelude.{ℕ, ◌≤◌, ◌≡◌, refl, sym, ap, suc, arith, List, [], ◌∷◌, length, map, All}
use gobac.Prelude.{true, false, ◌==◌, if◌then◌else◌, Option, none, some, Bool-cases, inl, inr}
use gobac.Prelude.{Bool}
use gobac.Result.{Result, ok, err, ◌>>=◌}
use gobac.Types.GoValue.{Floats}
use gobac.Types.PropertyValue.{PropertyValue}
use gobac.Types.Property.RoundTrip.{marshal_pointers-some}
use gobac.Pdu.ReadMultiple.Request.{marshal_index}
use gobac.Pdu.ReadMultiple.Ack
use gobac.Pdu.ReadMultiple.Ack.{
  marshal_outcome, marshal_result, marshal_results, marshal_access, marshal_accesses, marshal_ack,
}
use gobac.Simulator.Services.Convert.{to_object_id, to_property_values, encode_values-convert}
use gobac.Simulator.Services.ReadMultiple.{
  PropertyResult, ReadAccessResult, index_field, encode_outcome, encode_result, encode_results,
  encode_access, encode_read_property_multiple_result,
}

-- The simulator's results as the client's.
abbrev index_or_zero : Option ℕ → ℕ
index_or_zero none = 0
index_or_zero (some i) = i

abbrev has : Option ℕ → Bool
has none = false
has (some i) = true

abbrev client_values : PropertyResult → List PropertyValue → Ack.PropertyResult
client_values r vs = record {
  id = r.reference.id;
  index = index_or_zero r.reference.array_index;
  has_index = has r.reference.array_index;
  values = some (map some vs);
  error = none;
}

abbrev client_error : PropertyResult → Ack.PropertyResult
client_error r = record {
  id = r.reference.id;
  index = index_or_zero r.reference.array_index;
  has_index = has r.reference.array_index;
  values = none;
  error = some (record { class = r.error_class; code = r.error_code });
}

abbrev client_result : PropertyResult → Result Ack.PropertyResult
client_result r =
    if r.error_code == 0
    then (do vs ← to_property_values r.values; ok (client_values r vs))
    else ok (client_error r)

unfoldable pub client_results : List PropertyResult → Result (List Ack.PropertyResult)
client_results [] = ok []
client_results (r ∷ rs) = do c ← client_result r; cs ← client_results rs; ok (c ∷ cs)

abbrev client_access : ReadAccessResult → Result Ack.ReadAccessResult
client_access a = do
  o ← to_object_id a.object
  cs ← client_results a.results
  ok (record { object_id = some o; results = cs })

unfoldable pub client_ack : List ReadAccessResult → Result (List Ack.ReadAccessResult)
unfolding client_results
client_ack [] = ok []
client_ack (a ∷ as') = do c ← client_access a; cs ← client_ack as'; ok (c ∷ cs)

ok-injective : {A : Type 0} (a b : A) → (◌≡◌ {A = Result A} (ok a) (ok b)) → a ≡ b
ok-injective a b e = ground arith

-- What a chain that succeeded has come through.
bind-ok :
    {A B : Type 0} (r : Result A) (k : A → Result B) (b : B)
    → (r >>= k) ≡ ok b
    → (a : A) × (r ≡ ok a) × (k a ≡ ok b)
bind-ok (ok a) k b e = (a, refl, e)
bind-ok (err f) k b e = absurd (ground arith)

index-agrees : (n : ℕ) (i : Option ℕ) → index_field n i ≡ marshal_index n (has i) (index_or_zero i)
unfolding marshal_index
index-agrees n none = refl
index-agrees n (some i) = refl

module _ (f : Floats) where
  result-agrees :
      (r : PropertyResult) (c : Ack.PropertyResult)
      → client_result r ≡ ok c
      → encode_result f r ≡ marshal_result f c
  unfolding encode_result encode_outcome marshal_result marshal_outcome
  result-agrees r c h = elim (Bool-cases (r.error_code == 0)) [
    | inl e ↦
        let (vs, converted, same) = bind-ok (to_property_values r.values) _ c (rw e at h) in
        let same' : c ≡ client_values r vs = sym (ok-injective _ _ same) in
        rw
          (
            e,
            same',
            encode_values-convert f r.values vs converted,
            marshal_pointers-some f vs,
            index-agrees 3 r.reference.array_index,
          )
          refl
    | inr e ↦
        let same : c ≡ client_error r = sym (ok-injective _ _ (rw e at h)) in
        rw (e, same, index-agrees 3 r.reference.array_index) refl
  ]

  results-agree :
      (rs : List PropertyResult) (cs : List Ack.PropertyResult)
      → client_results rs ≡ ok cs
      → (encode_results f rs ≡ marshal_results f cs) × (length rs ≡ length cs)
  unfolding encode_results marshal_results client_results
  results-agree [] cs h = rw (← ok-injective [] cs h) (refl, refl)
  results-agree (r ∷ rs) cs h =
      let (c, hc, behind) = bind-ok (client_result r) _ cs h in
      let (ds, hds, end) = bind-ok (client_results rs) _ cs behind in
      let (same, size) = results-agree rs ds hds in
      rw (← ok-injective (c ∷ ds) cs end) (rw (result-agrees r c hc, same) refl, ap suc size)

  access-agrees :
      (a : ReadAccessResult) (c : Ack.ReadAccessResult)
      → client_access a ≡ ok c
      → 1 ≤ length a.results
      → encode_access f a ≡ marshal_access f c
  unfolding encode_access marshal_access
  access-agrees a c h some_result =
      let (o, ho, behind) = bind-ok (to_object_id a.object) _ c h in
      let (cs, hcs, end) = bind-ok (client_results a.results) _ c behind in
      let (same, size) = results-agree a.results cs hcs in
      let some_client : (length cs == 0) ≡ false = ground (arith, some_result, size) in
      rw (← ok-injective _ c end, ho, same, some_client) refl

  accesses-agree :
      (as' : List ReadAccessResult) (cs : List Ack.ReadAccessResult)
      → client_ack as' ≡ ok cs
      → All (λ a. 1 ≤ length a.results) as'
      → (encode_read_property_multiple_result f as' ≡ marshal_accesses f cs)
        × (length as' ≡ length cs)
  unfolding encode_read_property_multiple_result marshal_accesses client_ack
  accesses-agree [] cs h some_results = rw (← ok-injective [] cs h) (refl, refl)
  accesses-agree (a ∷ as') cs h (some_result, some_results) =
      let (c, hc, behind) = bind-ok (client_access a) _ cs h in
      let (ds, hds, end) = bind-ok (client_ack as') _ cs behind in
      let (same, size) = accesses-agree as' ds hds some_results in
      rw (← ok-injective (c ∷ ds) cs end)
        (rw (access-agrees a c hc some_result, same) refl, ap suc size)

  -- Results for at least one object, and for each at least one, whose objects and values can be
  -- converted, are encoded by the simulator as the client's encoder writes the same acknowledgement.
  pub encode_result-marshal_ack :
      (as' : List ReadAccessResult) (cs : List Ack.ReadAccessResult)
      → client_ack as' ≡ ok cs
      → 1 ≤ length as'
      → All (λ a. 1 ≤ length a.results) as'
      → encode_read_property_multiple_result f as' ≡ marshal_ack f cs
  unfolding marshal_ack
  encode_result-marshal_ack as' cs h some_access some_results =
      let (same, size) = accesses-agree as' cs h some_results in
      let some_client : (length cs == 0) ≡ false = ground (arith, some_access, size) in
      rw (same, some_client) refl
