-- ===== src/Packet/Composite.antt =====
-- The composite containers of utils/packet.h: lists of containers, and maps of containers.
use lin_socket_io.Base.{ℕ, ◌%◌, ◌^◌, ◌≡◌, refl, List, length, Result, ok, ◌>>=◌}
use lin_socket_io.Serial.Reader.{Deserializer}
use lin_socket_io.Serial.Writer.{Serializer}
use lin_socket_io.Packet.{
  Shape, pair, container, push_uint32, pop_uint32, push_all, pop_all, push_pair, pop_pair,
  marshal_container, unmarshal_container, push_value, pop_value,
}

module _ {A : Type 0} (fresh : ℕ → ℕ) (put : Serializer → A → Result Serializer) where
  pub marshal_composite_container : Serializer → List (List A) → Result Serializer
  marshal_composite_container p c = push_uint32 fresh p (length c % 2 ^ 32) >>= λ p'.
      push_all fresh (marshal_container fresh put) p' c

module _ {A : Type 0} (get : Deserializer → Result (A × Deserializer)) where
  -- the maps of a list
  pub unmarshal_composite_container : Deserializer → Result (List (List A) × Deserializer)
  unmarshal_composite_container up = do
    (count, up') ← pop_uint32 up
    pop_all (unmarshal_container get) count up'

  -- the vectors of a list
  pub unmarshal_composite_array : Deserializer → Result (List (List A) × Deserializer)
  unmarshal_composite_array up = do
    (count, up') ← pop_uint32 up
    pop_all (unmarshal_container get) count up'

module _ {K A : Type 0} (fresh : ℕ → ℕ) (put_key : Serializer → K → Result Serializer)
    (put : Serializer → A → Result Serializer) where
  -- the body of the loop: `p << i->first` and the container behind it
  pub push_entry : Serializer → K × List A → Result Serializer
  push_entry p (key, c) = put_key p key >>= λ p'. marshal_container fresh put p' c

  pub marshal_composite_map : Serializer → List (K × List A) → Result Serializer
  marshal_composite_map p c =
      push_uint32 fresh p (length c % 2 ^ 32) >>= λ p'. push_all fresh push_entry p' c

module _ {K A : Type 0} (get_key : Deserializer → Result (K × Deserializer))
    (get : Deserializer → Result (A × Deserializer)) where
  pub pop_entry : Deserializer → Result ((K × List A) × Deserializer)
  pop_entry up = do
    (key, up') ← get_key up
    (c, up'') ← unmarshal_container get up'
    ok ((key, c), up'')

  pub unmarshal_composite_map : Deserializer → Result (List (K × List A) × Deserializer)
  unmarshal_composite_map up = do (count, up') ← pop_uint32 up; pop_all pop_entry count up'

-- The composite functions write and read what the stream operators of the nested types do.
pub composite_container_lem :
    (fresh stored : ℕ → ℕ) (s : Shape)
    → (marshal_composite_container fresh (push_value fresh s)
        ≡ push_value fresh (container (container s)))
      × (unmarshal_composite_container (pop_value stored s)
          ≡ pop_value stored (container (container s)))
      × (unmarshal_composite_array (pop_value stored s)
          ≡ pop_value stored (container (container s)))
unfolding push_value pop_value marshal_composite_container unmarshal_composite_container
    unmarshal_composite_array marshal_container unmarshal_container
composite_container_lem fresh stored s = (refl, refl, refl)

pub composite_map_lem :
    (fresh stored : ℕ → ℕ) (k s : Shape)
    → (marshal_composite_map fresh (push_value fresh k) (push_value fresh s)
        ≡ push_value fresh (container (pair k (container s))))
      × (unmarshal_composite_map (pop_value stored k) (pop_value stored s)
          ≡ pop_value stored (container (pair k (container s))))
unfolding push_value pop_value marshal_composite_map unmarshal_composite_map marshal_container
    unmarshal_container push_pair pop_pair push_entry pop_entry
composite_map_lem fresh stored k s = (refl, refl)
