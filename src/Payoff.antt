-- ===== src/Payoff.antt =====
-- web/lib/payoff.ts: what a stream has paid out at an instant, when it covers a loan, and the
-- correction of the local clock. Instants and amounts are integers of Prelude/Int; a call of the
-- constructor of amounts can throw, so each function returns a result.
pub mod Streamed
pub mod Seconds
pub mod Cover
pub mod Clock
use ovrflo.Prelude.{Option, none, some, Bool, if◌then◌else◌}
use ovrflo.Prelude.Int.{ℤ, pos, pos_part, neg_part, ◌+ℤ◌, ◌-ℤ◌, ◌*ℤ◌, ltb_ℤ, leb_ℤ}
use ovrflo.Prelude.Errors.{Result, ok, ◌>>=◌}
use ovrflo.Units.{div, mint, min, sub}
use ovrflo.LendingMath.{clamp_zero, StreamBuckets, stream_buckets}

pub record StreamSchedule : Type 0 where
  pub start : ℤ
  pub end : ℤ
  pub deposited : ℤ
  pub withdrawn : ℤ
  pub refunded : ℤ

pub data CoverDate : Type 0 where
  projected : ℤ → CoverDate
  covered : ℤ → CoverDate
  uncovered : CoverDate

pub record LastStreamRead : Type 0 where
  pub at : ℤ
  pub streamed : ℤ

abbrev pub skew_max_sample_age_seconds : ℤ
skew_max_sample_age_seconds = pos 180

-- The arm of `streamedAmountOf` strictly between the start and the end of a stream.
unfoldable pub streamed_between : StreamSchedule → ℤ → ℤ → Result ℤ
streamed_between s cap now =
    let duration = s.end -ℤ s.start in
    if leb_ℤ duration (pos 0)
    then mint cap
    else (div (s.deposited *ℤ (now -ℤ s.start)) duration >>= λ streamed.
        mint (clamp_zero (if ltb_ℤ cap streamed then cap else streamed)))

unfoldable pub streamed_amount_of : StreamSchedule → ℤ → Result ℤ
streamed_amount_of s now =
    let cap = s.deposited -ℤ s.refunded in
    if leb_ℤ cap (pos 0)
    then mint (pos 0)
    else if leb_ℤ now s.start
    then mint (pos 0)
    else if leb_ℤ s.end now
    then mint (clamp_zero cap)
    else streamed_between s cap now

-- The amount last read, which stands while the clock is behind the read.
held_streamed : StreamSchedule → LastStreamRead → Result ℤ
held_streamed s read = do
  held ← mint (clamp_zero read.streamed)
  ceiling ← streamed_amount_of s s.end
  ok (min held ceiling)

pub interpolate_streamed : StreamSchedule → ℤ → Option LastStreamRead → Result ℤ
interpolate_streamed s now last_read = do
  formula ← streamed_amount_of s now
  elim last_read [
    | none ↦ ok formula
    | some read ↦ if ltb_ℤ now read.at then held_streamed s read else ok formula
  ]

-- The arm of `coverDate` where the stream should have covered the balance already.
unfoldable pub cover_reached : StreamSchedule → ℤ → ℤ → ℤ → Result CoverDate
cover_reached s outstanding now at = do
  streamed ← streamed_amount_of s now
  withdrawn ← mint (clamp_zero s.withdrawn)
  claimable ← if leb_ℤ withdrawn streamed then sub streamed withdrawn else mint (pos 0)
  ok (if leb_ℤ outstanding claimable then covered now else projected at)

-- `coverDate` from the instant at which the stream covers the balance.
unfoldable pub cover_at : StreamSchedule → ℤ → ℤ → ℤ → ℤ → Result CoverDate
cover_at s outstanding now remaining at =
    if leb_ℤ at now
    then cover_reached s outstanding now at
    else if leb_ℤ s.end at
    then ok (if leb_ℤ outstanding remaining then projected s.end else uncovered)
    else ok (projected at)

-- `coverDate` for a positive balance that the stream can cover.
unfoldable pub cover_needed : StreamSchedule → ℤ → ℤ → ℤ → Result CoverDate
cover_needed s outstanding now remaining =
    let need = outstanding +ℤ s.withdrawn in
    let duration = s.end -ℤ s.start in
    if leb_ℤ need (pos 0)
    then ok (covered now)
    else if leb_ℤ duration (pos 0)
    then ok (if leb_ℤ outstanding remaining then covered now else uncovered)
    else (div (need *ℤ duration +ℤ s.deposited -ℤ pos 1) s.deposited >>= λ elapsed.
        cover_at s outstanding now remaining (s.start +ℤ elapsed))

unfoldable pub cover_date : StreamSchedule → ℤ → ℤ → Result CoverDate
cover_date s outstanding now =
    let remaining = s.deposited -ℤ s.withdrawn -ℤ s.refunded in
    if leb_ℤ outstanding (pos 0)
    then ok (covered now)
    else if leb_ℤ remaining (pos 0)
    then ok uncovered
    else if ltb_ℤ remaining outstanding
    then ok uncovered
    else cover_needed s outstanding now remaining

pub repay_preview : StreamSchedule → ℤ → ℤ → ℤ → Result (CoverDate × CoverDate)
repay_preview s outstanding repay_amount now = do
  let repay = clamp_zero repay_amount
  let next_outstanding = if leb_ℤ outstanding repay then pos 0 else outstanding -ℤ repay
  current ← cover_date s outstanding now
  next ← cover_date s next_outstanding now
  ok (current, next)

-- `additional` of `interpolateOutstanding`: what was streamed between two instants.
streamed_gain : ℤ → ℤ → Result ℤ
streamed_gain then_streamed now_streamed =
    if ltb_ℤ then_streamed now_streamed then sub now_streamed then_streamed else mint (pos 0)

deduct : ℤ → ℤ → Result ℤ
deduct last additional = if ltb_ℤ additional last then sub last additional else mint (pos 0)

less_streamed : ℤ → ℤ → ℤ → Result ℤ
less_streamed last_outstanding then_streamed now_streamed = do
  additional ← streamed_gain then_streamed now_streamed
  last ← mint last_outstanding
  deduct last additional

-- The arm of `interpolateOutstanding` after the last read.
outstanding_since : StreamSchedule → ℤ → ℤ → ℤ → Result ℤ
outstanding_since s last_outstanding last_read_at now = do
  then_streamed ← streamed_amount_of s last_read_at
  now_streamed ←
      interpolate_streamed s now (some (record { at = last_read_at; streamed = then_streamed }))
  less_streamed last_outstanding then_streamed now_streamed

pub interpolate_outstanding : StreamSchedule → ℤ → ℤ → ℤ → Result ℤ
interpolate_outstanding s last_outstanding last_read_at now =
    if leb_ℤ last_outstanding (pos 0)
    then mint (pos 0)
    else if leb_ℤ now last_read_at
    then mint last_outstanding
    else outstanding_since s last_outstanding last_read_at now

-- `previous ?? 0n`
abbrev pub or_zero : Option ℤ → ℤ
or_zero none = pos 0
or_zero (some v) = v

pub estimate_skew : ℤ → ℤ → Option ℤ → ℤ → ℤ
estimate_skew local_now block_timestamp previous max_age =
    let delta = local_now -ℤ block_timestamp in
    let abs = if ltb_ℤ delta (pos 0) then pos 0 -ℤ delta else delta in
    if ltb_ℤ max_age abs then or_zero previous else delta

pub adjusted_now : ℤ → ℤ → ℤ
adjusted_now local_now skew = clamp_zero (local_now -ℤ skew)

pub buckets_at : StreamSchedule → ℤ → Option LastStreamRead → Result StreamBuckets
buckets_at s now last_read = do
  streamed ← interpolate_streamed s now last_read
  stream_buckets (record {
    deposited = s.deposited;
    withdrawn = s.withdrawn;
    refunded = s.refunded;
    streamed = streamed;
  })
