-- ===== src/Electrum/CoinStore.antt =====
-- `CoinStore` of electrum/src/coin_store.rs: the coins of a wallet, derived from its transactions,
-- the histories that the server reports for its scripts, and the claims of confirmations.
--
-- The state is a record, the shared stores inside it. The notifications are those of a build without
-- the feature `sp`, in order. `none` is a panic.
pub mod Generate
pub mod Listener
pub mod Balance
pub mod Chain
pub mod Passes
pub mod Asked
pub mod Promoted
pub mod Progress
pub mod Kept
use Prim.Native.String.{String}
use bwk.Common.{ℕ, Bool, true, false, Option, none, some, List, []}
use bwk.Common.Sets.{BTreeSet}
use bwk.Common.Text.{Text}
use bwk.Coin.{Coin, CoinStatus, OutPoint}
use bwk.Persist.Backend.{PersistenceBackend}
use bwk.Persist.RamStore.{Codec}
use bwk.Electrum.Types.{Bitcoin, ClaimAt}
use bwk.Electrum.Updates.{SpkHistory, Update}
use bwk.Electrum.TxStore.{TxStore, TxEntry}
use bwk.Electrum.Claims.{PendingClaims}
use bwk.Electrum.Addresses.{AddressStore, SpkDerivator, with_account_store}

pub record CoinEntry (D : Type 0) : Type 0 where
  pub coin : Coin D
  pub address : Text

abbrev pub spent_status : CoinStatus → Bool
spent_status CoinStatus.spent = true
spent_status CoinStatus.being_spend = true
spent_status _ = false

unfoldable pub is_spent : {D : Type 0} → CoinEntry D → Bool
is_spent e = spent_status e.coin.status

abbrev pub Coins : Type 0 → Type 0
Coins D = List (OutPoint × CoinEntry D)

pub data Notification : Type 0 where
  coin_received : OutPoint → ℕ → Option ℕ → Notification
  coin_spent : OutPoint → Notification
  coin_update : Notification

-- What stays as it is: the derivation, the crates, and the backend with its codec.
pub record Wallet (D B : Type 0) : Type 0 where
  pub bitcoin : Bitcoin
  pub derivator : SpkDerivator
  pub descriptor : D
  pub satisfaction : ℕ
  pub backend : PersistenceBackend B
  pub codec : Codec ℕ TxEntry

pub record CoinStore (D B : Type 0) : Type 0 where
  pub store : Coins D
  pub label_store : List (OutPoint × String)
  pub spk_to_outpoint : List (Text × BTreeSet OutPoint)
  pub address_store : AddressStore
  pub tx_store : TxStore
  pub rows : B
  pub spk_history : List (Text × SpkHistory)
  pub updates : List Update
  pub sent : List Notification
  pub generated : Bool
  pub pending_claims : PendingClaims
  pub merkle_in_flight : BTreeSet ClaimAt
  pub header_scanner : Bool

-- A store on a transaction store, before its first `generate`.
unfoldable pub new_store :
    {D B : Type 0}
    → Wallet D B
    → ℕ
    → ℕ
    → ℕ
    → TxStore
    → B
    → List (OutPoint × String)
    → Bool
    → CoinStore D B
new_store w recv_tip change_tip look_ahead tx_store rows labels header_scanner = record {
  store = [];
  label_store = labels;
  spk_to_outpoint = [];
  address_store = with_account_store w.derivator recv_tip change_tip look_ahead;
  tx_store = tx_store;
  rows = rows;
  spk_history = [];
  updates = [];
  sent = [];
  generated = false;
  pending_claims = [];
  merkle_in_flight = [];
  header_scanner = header_scanner;
}
