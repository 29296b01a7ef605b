-- ===== src/Tests/Accounts.antt =====
-- Instances for the staking contract: the encoding of its types, and the answers of a chain.
use Prim.Native.String.{String}
use text.Mathlib.Text.{◌==◌ as str_eq}
use text.Mathlib.TextEquality.{eq_iff}
use cosmwasm.Base.{
  arith, ==_iff, ℕ, ◌≡◌, refl, Bool, true, false, some, [], ◌∷◌, ok, err, ◌==◌, ◌&&◌, if◌then◌else◌,
  List,
}
use cosmwasm.Bytes.{Bytes}
use cosmwasm.Errors.{StdResult, not_found, generic_err}
use cosmwasm.Serde.{Serde, IsSerde}
use cosmwasm.Staking.{Coin, InvestmentInfo, TokenInfo, Supply, Codecs, Chain}
use cosmwasm.Staking.Solvent.{IsCodecs}
use cosmwasm.Staking.Messages.{MessageInfo, InstantiateMsg}
use cosmwasm.Tests.Fixtures.{codec, codec-IsSerde}

abbrev read_supply : Bytes → StdResult Supply
read_supply (issued ∷ bonded ∷ claims ∷ []) =
    ok (record { issued = issued; bonded = bonded; claims = claims })
read_supply other = err (not_found "Supply")

abbrev supply_codec : Serde Supply
supply_codec = record {
  type_name = "Supply";
  to_vec = λ s. ok (s.issued ∷ s.bonded ∷ s.claims ∷ []);
  from_slice = read_supply;
}

read_written : (s : Supply) → read_supply (s.issued ∷ s.bonded ∷ s.claims ∷ []) ≡ ok s
read_written s = refl

supply_codec-IsSerde : IsSerde supply_codec
supply_codec-IsSerde = record {
  read_back = λ t b e. cc (read_written t);
  nonempty = λ t b e n. ground arith;
}

-- The encoding of one value; no other value has one.
module _ {T : Type 0} (known : T) (same : T → Bool) where
  abbrev only : Serde T
  only = record {
    type_name = "T";
    to_vec = λ t. if same t then ok (1 ∷ []) else err (generic_err "Serialize");
    from_slice = λ b. ok known;
  }

  only-IsSerde : ((t : T) → same t ≡ true → known ≡ t) → IsSerde only
  only-IsSerde h = record {
    read_back = λ t b e. ground (arith, h t);
    nonempty = λ t b e n. ground arith;
  }

abbrev token : TokenInfo
token = record { name = "Drv"; symbol = "DRV"; decimals = 9 }

abbrev pub investment : InvestmentInfo
investment = record {
  owner = "creator";
  bond_denom = "ustake";
  exit_tax = 0;
  validator = "val";
  min_withdrawal = 5;
}

both : (a b : Bool) → (a && b) ≡ true → (a ≡ true) × (b ≡ true)
both true b h = (refl, h)
both false b h = absurd (cc)

abbrev is_token : TokenInfo → Bool
is_token t = str_eq t.name "Drv" && (str_eq t.symbol "DRV" && (t.decimals == 9))

is_token-eq : (t : TokenInfo) → is_token t ≡ true → token ≡ t
is_token-eq t h =
    let (a, h1) = both (str_eq t.name "Drv") _ h in
    let (b, c) = both (str_eq t.symbol "DRV") _ h1 in
    cc ((eq_iff t.name "Drv").0 a, (eq_iff t.symbol "DRV").0 b, (==_iff t.decimals 9).0 c)

abbrev is_investment : InvestmentInfo → Bool
is_investment i =
    str_eq i.owner "creator"
    && (str_eq i.bond_denom "ustake"
        && (str_eq i.validator "val" && ((i.exit_tax == 0) && (i.min_withdrawal == 5))))

is_investment-eq : (i : InvestmentInfo) → is_investment i ≡ true → investment ≡ i
is_investment-eq i h =
    let (a, h1) = both (str_eq i.owner "creator") _ h in
    let (b, h2) = both (str_eq i.bond_denom "ustake") _ h1 in
    let (c, h3) = both (str_eq i.validator "val") _ h2 in
    let (d, e) = both (i.exit_tax == 0) _ h3 in
    cc (
      (eq_iff i.owner "creator").0 a,
      (eq_iff i.bond_denom "ustake").0 b,
      (eq_iff i.validator "val").0 c,
      (==_iff i.exit_tax 0).0 d,
      (==_iff i.min_withdrawal 5).0 e,
    )

abbrev pub codecs : Codecs
codecs = record {
  uint128 = codec;
  supply = supply_codec;
  investment = only investment is_investment;
  token = only token is_token;
}

pub codecs-IsCodecs : IsCodecs codecs
codecs-IsCodecs = record {
  uint128 = codec-IsSerde;
  supply = supply_codec-IsSerde;
  investment = only-IsSerde investment is_investment is_investment-eq;
  token = only-IsSerde token is_token is_token-eq;
}

-- One account per name, one validator, and an account of the contract that holds 100.
abbrev key_of : String → StdResult Bytes
key_of name =
    if str_eq name "creator"
    then ok (1 ∷ [])
    else if str_eq name "bob"
    then ok (2 ∷ [])
    else err (generic_err "canonicalize")

abbrev pub chain_with : List Coin → Chain
chain_with bonds = record {
  addr_canonicalize = key_of;
  query_validator = λ name. ok (some name);
  query_bonded_denom = ok "ustake";
  query_all_delegations = λ contract. ok bonds;
  query_balance = λ contract denom. ok (record { denom = denom; amount = 100 });
}

abbrev pub stake : ℕ → Coin
stake n = record { denom = "ustake"; amount = n }

abbrev pub from_user : String → List Coin → MessageInfo
from_user name funds = record { sender = name; funds = funds }

abbrev pub opening : InstantiateMsg
opening = record {
  name = "Drv";
  symbol = "DRV";
  decimals = 9;
  validator = "val";
  exit_tax = 0;
  min_withdrawal = 5;
}
