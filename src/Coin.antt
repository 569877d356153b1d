-- ===== src/Coin.antt =====
-- The coin domain types of coin/src/lib.rs: keychains, statuses, spend information and coins, with
-- the conversions and the descriptor derivation that coin sources and the builder share.
--
-- The crates `bitcoin` and `miniscript` are parameters: `D` is their descriptor type, and
-- `Miniscript` and `Script` hold the functions that the code calls. An amount is its satoshis, a
-- script its bytes.
pub mod Laws
mod Examples
use bwk.Common.{
  ℕ, zero, suc, Bool, true, false, Option, none, some, List, [], ◌∷◌, if◌then◌else◌, Result, ok,
  err, ◌>>=◌, ok_or,
}
use Prim.Native.String.{String}

pub data Error : Type 0 where
  derivation key_chain multi_descriptor update : Error

pub data KeyChain : Type 0 where
  receive : KeyChain
  change : KeyChain
  custom : ℕ → KeyChain

unfoldable pub to_u32 : KeyChain → ℕ
to_u32 receive = 0
to_u32 change = 0
to_u32 (custom c) = c

unfoldable pub from_u32 : ℕ → KeyChain
from_u32 zero = receive
from_u32 (suc zero) = change
from_u32 (suc (suc c)) = custom (suc (suc c))

pub data CoinStatus : Type 0 where
  unconfirmed confirmed_unverified confirmed being_spend spent : CoinStatus

pub data CoinSpendInfo (D : Type 0) : Type 0 where
  bip32 : KeyChain × ℕ → D → CoinSpendInfo D
  sp : List ℕ → List ℕ → CoinSpendInfo D

pub data CoinSourceKind : Type 0 where
  silent_payment segwit taproot other : CoinSourceKind

-- `bitcoin::OutPoint`: a transaction id, as the number that its 32 bytes spell, and an index.
pub record OutPoint : Type 0 where
  pub txid : ℕ
  pub vout : ℕ

pub record TxOut : Type 0 where
  pub value : ℕ
  pub script_pubkey : List ℕ

pub record Coin (D : Type 0) : Type 0 where
  pub txout : TxOut
  pub outpoint : OutPoint
  pub height : Option ℕ
  pub sequence : ℕ
  pub status : CoinStatus
  pub label : Option String
  pub satisfaction_size : ℕ
  pub spend_info : CoinSpendInfo D

-- `bitcoin::TxIn`, with its script and its witness as bytes.
pub record TxIn : Type 0 where
  pub previous_output : OutPoint
  pub script_sig : List ℕ
  pub sequence : ℕ
  pub witness : List (List ℕ)

-- What the code calls of `bitcoin::Script`.
pub record Script : Type 0 where
  pub is_p2wpkh : List ℕ → Bool
  pub is_p2tr : List ℕ → Bool

-- What the code calls of `miniscript`, over its descriptors `D`, definite descriptors `DD` and the
-- psbt inputs `P` of `bitcoin`. `none` is a failure of the call.
pub record Miniscript (D DD P : Type 0) : Type 0 where
  pub into_single_descriptors : D → Option (List D)
  pub at_derivation_index : D → ℕ → Option DD
  pub max_weight_to_satisfy : D → Option ℕ
  pub with_witness_utxo : TxOut → P
  pub update_input_with_descriptor : TxIn → P → DD → Option P

unfoldable pub to_txin : {D : Type 0} → Coin D → TxIn
to_txin c = record {
  previous_output = c.outpoint;
  script_sig = [];
  sequence = c.sequence;
  witness = [];
}

module _ {D : Type 0} where
  abbrev pub value : Coin D → ℕ
  value c = c.txout.value

  abbrev is_bip32_info : CoinSpendInfo D → Bool
  is_bip32_info (bip32 path d) = true
  is_bip32_info (sp path tweak) = false

  unfoldable pub is_bip32 : Coin D → Bool
  is_bip32 c = is_bip32_info c.spend_info

  abbrev is_sp_info : CoinSpendInfo D → Bool
  is_sp_info (bip32 path d) = false
  is_sp_info (sp path tweak) = true

  unfoldable pub is_sp : Coin D → Bool
  is_sp c = is_sp_info c.spend_info

  source_of : Script → CoinSpendInfo D → List ℕ → CoinSourceKind
  source_of s (sp path tweak) spk = silent_payment
  source_of s (bip32 path d) spk =
      if s.is_p2wpkh spk then segwit else if s.is_p2tr spk then taproot else other

  unfoldable pub source : Script → Coin D → CoinSourceKind
  unfolding source_of
  source s c = source_of s c.spend_info c.txout.script_pubkey

module _ {D DD P : Type 0} (m : Miniscript D DD P) where
  abbrev next : List D → Result Error (D × List D)
  next [] = err multi_descriptor
  next (d ∷ ds) = ok (d, ds)

  abbrev single_of : KeyChain → D → D → Result Error D
  single_of receive recv change_d = ok recv
  single_of change recv change_d = ok change_d
  single_of (custom c) recv change_d = err key_chain

  unfoldable pub derive_descriptor : D → KeyChain → ℕ → Result Error DD
  derive_descriptor d keychain index = do
    descriptors ← ok_or multi_descriptor (m.into_single_descriptors d)
    (recv, rest) ← next descriptors
    (change_d, _) ← next rest
    single ← single_of keychain recv change_d
    ok_or derivation (m.at_derivation_index single index)

  unfoldable pub spk_to_psbt_input : Coin D → KeyChain × ℕ → D → Result Error P
  unfolding derive_descriptor to_txin
  spk_to_psbt_input c (kc, index) d = do
    descr ← derive_descriptor d kc index
    ok_or update (m.update_input_with_descriptor (to_txin c) (m.with_witness_utxo c.txout) descr)

  unfoldable pub sp_to_psbt_input : Coin D → Result Error P
  sp_to_psbt_input c = ok (m.with_witness_utxo c.txout)

  input_of : CoinSpendInfo D → Coin D → Result Error P
  unfolding spk_to_psbt_input sp_to_psbt_input
  input_of (bip32 path d) c = spk_to_psbt_input c path d
  input_of (sp path tweak) c = sp_to_psbt_input c

  unfoldable pub to_psbt_input : Coin D → Result Error P
  unfolding input_of
  to_psbt_input c = input_of c.spend_info c

  abbrev first_of_list : List D → Option D
  first_of_list [] = none
  first_of_list (d ∷ ds) = some d

  -- The `expect`s of the source are `none` here: the caller's thread ends.
  unfoldable pub max_input_satisfaction_size : D → Option ℕ
  max_input_satisfaction_size d = elim (m.into_single_descriptors d) [
    | none ↦ none
    | some ds ↦ elim (first_of_list ds) [
      | none ↦ none
      | some single ↦ m.max_weight_to_satisfy single
    ]
  ]
