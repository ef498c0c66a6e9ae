-- ===== src/Wire/Genesis.antt =====
-- genesis.pb.go: the encoding of `GenesisState`.
use chain_rice.Common.{ℕ, ◌≡◌, ◌≢◌, str, [], ◌∷◌, Bytes}
use chain_rice.Common.Result.{Error, Result, ok, panic}
use chain_rice.Chainrice.Types.{Params, GenesisState}
use chain_rice.Wire.Marshal.{Writer, marshal, marshal_to}
use chain_rice.Wire.Skip.{IsSlice}
use chain_rice.Wire.Unmarshal.{Handler, unmarshal}
use chain_rice.Wire.Unmarshal.Total.{unmarshal-ne-panic}
use chain_rice.Wire.Single.{
  single_size, single_to_sized_buffer, single_field, single_field-IsTame, single_marshal,
  single_unmarshal,
}

abbrev genesis_params : GenesisState → Params
genesis_params m = m.params

abbrev with_genesis_params : GenesisState → Params → GenesisState
with_genesis_params m p = record m { params = p }

abbrev pub genesis_size : GenesisState → ℕ
genesis_size = single_size genesis_params with_genesis_params

abbrev pub genesis_to_sized_buffer : Writer GenesisState
genesis_to_sized_buffer = single_to_sized_buffer genesis_params with_genesis_params

unfoldable pub genesis_marshal : GenesisState → Result Bytes
genesis_marshal m = marshal genesis_size genesis_to_sized_buffer m

unfoldable pub genesis_marshal_to : GenesisState → Bytes → Result (Bytes × ℕ)
genesis_marshal_to m buf = marshal_to genesis_size genesis_to_sized_buffer m buf

abbrev pub genesis_field : Handler GenesisState
genesis_field = single_field genesis_params with_genesis_params

unfoldable pub genesis_unmarshal : Bytes → GenesisState → Result GenesisState
genesis_unmarshal src m = unmarshal (str "GenesisState") genesis_field src m

-- Any genesis state goes through `Marshal` and `Unmarshal` unchanged, whatever message is decoded
-- into.
pub genesis_unmarshal-genesis_marshal :
    (m z : GenesisState)
    → (bytes : Bytes) × (genesis_marshal m ≡ ok bytes) × (genesis_unmarshal bytes z ≡ ok m)
unfolding genesis_marshal genesis_unmarshal
genesis_unmarshal-genesis_marshal m z = (
  10 ∷ 0 ∷ [],
  single_marshal genesis_params with_genesis_params m,
  single_unmarshal genesis_params with_genesis_params (str "GenesisState") z,
)

-- On every input that is a Go slice, `genesis_unmarshal` returns a genesis state or an error.
pub genesis_unmarshal-ne-panic :
    (src : Bytes) (m : GenesisState) (e : Error) → IsSlice src → genesis_unmarshal src m ≢ panic e
unfolding genesis_unmarshal
genesis_unmarshal-ne-panic src m e h =
    unmarshal-ne-panic (str "GenesisState") (single_field-IsTame genesis_params with_genesis_params)
      src m e h
