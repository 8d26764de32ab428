-- ===== src/Adapters/Lbank.antt =====
-- app/adapters/lbank_models.py: the instrument, the quote, the order book and the snapshot of LBank,
-- with the checks of their constructors. How Unicode folds case is the platform's.
use dumpectorist.Prelude.{false, not, String, List, [], ◌∷◌, Option, none, some, str_eq}
use dumpectorist.Prelude.Int.{ℤ, pos, ltb_ℤ}
use dumpectorist.Prelude.Number.{Num}
use dumpectorist.Prelude.Result.{Result, ok, err, value_error, raise_if, ◌>>=◌, ◌>>◌}
use dumpectorist.Prelude.Time.{Datetime, require_aware}
use dumpectorist.Adapters.Decimals.{
  required_text, finite_decimal, positive_decimal, non_negative_decimal, optionally,
}

pub record LBankInstrument (D : Type 0) : Type 0 where
  pub symbol : String
  pub base_currency : String
  pub price_currency : String
  pub clear_currency : String
  pub price_tick : D
  pub volume_tick : D
  pub volume_multiple : D
  pub min_order_volume : Option D
  pub min_order_cost : Option D

pub record LBankMarketQuote (D : Type 0) : Type 0 where
  pub symbol : String
  pub last_price : D
  pub marked_price : D
  pub funding_rate : Option D
  pub volume_24h : Option D
  pub turnover_24h : Option D

pub record LBankBookLevel (D : Type 0) : Type 0 where
  pub price : D
  pub volume : D
  pub orders : Option ℤ

-- The constructor refuses an empty side, so each side is its best level and the rest.
pub record LBankOrderBook (D : Type 0) : Type 0 where
  pub symbol : String
  pub best_bid : LBankBookLevel D
  pub more_bids : List (LBankBookLevel D)
  pub best_ask : LBankBookLevel D
  pub more_asks : List (LBankBookLevel D)

pub record LBankExecutionSnapshot (D : Type 0) : Type 0 where
  pub source : String
  pub product_group : String
  pub symbol : String
  pub received_at : Datetime
  pub latency_ms : ℤ
  pub instrument : LBankInstrument D
  pub quote : LBankMarketQuote D
  pub order_book : LBankOrderBook D
  pub spread : D
  pub spread_bps : D
  pub bid_depth_quote : D
  pub ask_depth_quote : D

module _ {D : Type 0} (dec : Num D) where
  -- `LBankInstrument.__post_init__`
  unfoldable pub lbank_instrument : LBankInstrument D → Result (LBankInstrument D)
  unfolding required_text positive_decimal optionally
  lbank_instrument i = do
    symbol ← required_text i.symbol "symbol"
    base ← required_text i.base_currency "base_currency"
    price ← required_text i.price_currency "price_currency"
    clear ← required_text i.clear_currency "clear_currency"
    price_tick ← positive_decimal dec i.price_tick "price_tick"
    volume_tick ← positive_decimal dec i.volume_tick "volume_tick"
    volume_multiple ← positive_decimal dec i.volume_multiple "volume_multiple"
    min_volume ← optionally (positive_decimal dec) i.min_order_volume "min_order_volume"
    min_cost ← optionally (positive_decimal dec) i.min_order_cost "min_order_cost"
    ok (record {
      symbol = symbol;
      base_currency = base;
      price_currency = price;
      clear_currency = clear;
      price_tick = price_tick;
      volume_tick = volume_tick;
      volume_multiple = volume_multiple;
      min_order_volume = min_volume;
      min_order_cost = min_cost;
    })

  -- `LBankMarketQuote.__post_init__`
  unfoldable pub lbank_market_quote : LBankMarketQuote D → Result (LBankMarketQuote D)
  unfolding required_text positive_decimal finite_decimal non_negative_decimal optionally
  lbank_market_quote q = do
    symbol ← required_text q.symbol "symbol"
    last ← positive_decimal dec q.last_price "last_price"
    marked ← positive_decimal dec q.marked_price "marked_price"
    funding ← optionally (finite_decimal dec) q.funding_rate "funding_rate"
    volume ← optionally (non_negative_decimal dec) q.volume_24h "volume_24h"
    turnover ← optionally (non_negative_decimal dec) q.turnover_24h "turnover_24h"
    ok (record {
      symbol = symbol;
      last_price = last;
      marked_price = marked;
      funding_rate = funding;
      volume_24h = volume;
      turnover_24h = turnover;
    })

  -- `LBankBookLevel.__post_init__`
  unfoldable pub lbank_book_level : LBankBookLevel D → Result (LBankBookLevel D)
  unfolding positive_decimal
  lbank_book_level l = do
    price ← positive_decimal dec l.price "price"
    volume ← positive_decimal dec l.volume "volume"
    raise_if (elim l.orders [ none ↦ false | some n ↦ ltb_ℤ n (pos 0) ])
        (value_error "orders must be non-negative")
    ok (record l { price = price; volume = volume })

  -- `LBankOrderBook.__post_init__`, from the two sides as they come.
  unfoldable pub lbank_order_book :
      String → List (LBankBookLevel D) → List (LBankBookLevel D) → Result (LBankOrderBook D)
  unfolding required_text
  lbank_order_book symbol [] asks = do
    name ← required_text symbol "symbol"
    err (value_error "order book requires bids and asks")
  lbank_order_book symbol (bid ∷ bids) [] = do
    name ← required_text symbol "symbol"
    err (value_error "order book requires bids and asks")
  lbank_order_book symbol (bid ∷ bids) (ask ∷ asks) = do
    name ← required_text symbol "symbol"
    raise_if (dec.le ask.price bid.price) (value_error "order book must not be crossed or locked")
    ok (record {
      symbol = name;
      best_bid = bid;
      more_bids = bids;
      best_ask = ask;
      more_asks = asks;
    })

  -- `executable_mid_price`
  unfoldable pub executable_mid_price : LBankExecutionSnapshot D → D
  executable_mid_price s =
      dec.div (dec.add s.order_book.best_bid.price s.order_book.best_ask.price) (dec.lit 2 0)

  module _ (casefold : String → String) where
    -- `LBankExecutionSnapshot.__post_init__`
    unfoldable pub lbank_execution_snapshot :
        LBankExecutionSnapshot D → Result (LBankExecutionSnapshot D)
    unfolding required_text positive_decimal non_negative_decimal
    lbank_execution_snapshot s = do
      source ← required_text s.source "source"
      product_group ← required_text s.product_group "product_group"
      symbol ← required_text s.symbol "symbol"
      require_aware s.received_at "received_at"
      raise_if (ltb_ℤ s.latency_ms (pos 0)) (value_error "latency_ms must be non-negative")
      raise_if (not (str_eq (casefold s.instrument.symbol) (casefold symbol)))
          (value_error "instrument symbol mismatch")
      raise_if (not (str_eq (casefold s.quote.symbol) (casefold symbol)))
          (value_error "quote symbol mismatch")
      raise_if (not (str_eq (casefold s.order_book.symbol) (casefold symbol)))
          (value_error "order_book symbol mismatch")
      spread ← positive_decimal dec s.spread "spread"
      raise_if
          (not (dec.eq spread (dec.sub s.order_book.best_ask.price s.order_book.best_bid.price)))
          (value_error "spread does not match order book")
      spread_bps ← positive_decimal dec s.spread_bps "spread_bps"
      bid_depth ← non_negative_decimal dec s.bid_depth_quote "bid_depth_quote"
      ask_depth ← non_negative_decimal dec s.ask_depth_quote "ask_depth_quote"
      ok (record s {
        source = source;
        product_group = product_group;
        symbol = symbol;
        spread = spread;
        spread_bps = spread_bps;
        bid_depth_quote = bid_depth;
        ask_depth_quote = ask_depth;
      })
