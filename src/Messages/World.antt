-- ===== src/Messages/World.antt =====
-- What the operations of the messages component act on: the database behind its driver, the clock,
-- the id generator, the modem, the webhook events and the metrics (internal/messages/metrics.go).
--
-- Every answer of the outside world is a function of the number of the step at which it is asked, so
-- a theorem for all environments covers every schedule of faults, clock readings and modem answers.
pub mod Keeps
use at_gateway.Prelude.{ℕ, suc, ◌+◌, String, Bool, Option, List, [], ◌∷◌, ◌++◌, if◌then◌else◌}
use at_gateway.Messages.Result.{Result, ok, err, panic, Error, Reason, database}
use at_gateway.Messages.Domain.{Codec}
use at_gateway.Messages.Rows.{Db}

-- `PhoneNumberType` of nyaruka/phonenumbers, as far as the code tells types apart.
pub data NumberType : Type 0 where
  mobile fixed_line_or_mobile other_number_type : NumberType

-- What `modem.Service.SendSMS` answers: the references of the parts, or the text of its error.
pub data SendAnswer : Type 0 where
  accepted : List ℕ → SendAnswer
  refused : String → SendAnswer

pub record Env : Type 0 where
  -- Whether the driver reports an error for the statement (or begin, or commit) of a step.
  pub fault : ℕ → Bool
  -- `time.Now().UTC()`, in microseconds.
  pub now : ℕ → ℕ
  -- `gonanoid.Must()`.
  pub new_id : ℕ → String
  -- `devicesSvc.Get().ID`.
  pub local_device : String
  pub codec : Codec
  -- nyaruka/phonenumbers: a token stands for a parsed number.
  pub phone_parse : String → String → Option String
  pub phone_is_valid : String → Bool
  pub phone_type : String → NumberType
  pub phone_format : String → String
  pub default_region : String
  -- `sms.Encode`: the number of parts of a text.
  pub segments : String → Option ℕ
  pub max_segments : ℕ
  -- `modemSvc.SendSMS(phone, text, withDeliveryReport)`.
  pub send_sms : ℕ → String → String → Bool → SendAnswer
  -- `modemSvc.SIM().PhoneNumber`.
  pub sim_phone : ℕ → String

-- `webhooks.MessageEvent`.
pub record MessageEvent : Type 0 where
  pub message_id : String
  pub phone_number : String
  pub sender : String
  pub recipient : Option String
  pub sim_number : Option ℕ
  pub at : ℕ

-- The calls of the four emitters of internal/webhooks/events.go.
pub data Event : Type 0 where
  sms_sent sms_delivered sms_cancelled : MessageEvent → Event
  sms_failed : MessageEvent → Reason → Event

-- One call of `modemSvc.SendSMS`.
pub record SendCall : Type 0 where
  pub phone : String
  pub text : String
  pub with_report : Bool

-- `Metrics`.
pub record Metrics : Type 0 where
  pub enqueued : ℕ
  pub sent : ℕ
  pub delivered : ℕ
  pub failed : ℕ
  pub cancelled : ℕ

pub record World : Type 0 where
  pub db : Db
  pub steps : ℕ
  -- Oldest first.
  pub sends : List SendCall
  pub events : List Event
  pub metrics : Metrics

abbrev pub M : Type 0 → Type 0
M A = World → Result A × World

abbrev pub then_run : {A B : Type 0} → Result A × World → (A → M B) → Result B × World
then_run (ok a, w) f = f a w
then_run (err e, w) f = (err e, w)
then_run (panic, w) f = (panic, w)

infixl 5 ◌>>=◌ ◌>>◌
abbrev pub ◌>>=◌ : {A B : Type 0} → M A → (A → M B) → M B
◌>>=◌ m f w = then_run (m w) f

abbrev pub ◌>>◌ : {B : Type 0} → M (Unit {0}) → M B → M B
◌>>◌ m k = m >>= λ _. k

abbrev pub done : {A : Type 0} → A → M A
done a w = (ok a, w)

abbrev pub fail : {A : Type 0} → Error → M A
fail e w = (err e, w)

abbrev pub lift : {A : Type 0} → Result A → M A
lift r w = (r, w)

abbrev pub tick : World → World
tick w = record w { steps = suc w.steps }

abbrev with_result : {A : Type 0} → Result A × Db → World → Result A × World
with_result (r, db) w = (r, record w { db = db })

-- The end of `RunInTx`: a commit, or the rollback to the saved tables.
abbrev close_tx : {A : Type 0} → Env → Db → Result A × World → Result A × World
close_tx env saved (ok a, w) =
    if env.fault w.steps then (err database, record (tick w) { db = saved }) else (ok a, tick w)
close_tx env saved (err e, w) = (err e, record w { db = saved })
close_tx env saved (panic, w) = (panic, record w { db = saved })

module _ (env : Env) where
  -- `time.Now().UTC()`.
  abbrev pub read_clock : M ℕ
  read_clock w = (ok (env.now w.steps), tick w)

  -- One SQL statement: the driver reports an error and leaves the tables, or executes it.
  abbrev pub statement : {A : Type 0} → (Db → Result A × Db) → M A
  statement f w =
      if env.fault w.steps then (err database, tick w) else with_result (f w.db) (tick w)

  -- `db.RunInTx`.
  abbrev pub in_tx : {A : Type 0} → M A → M A
  in_tx body w =
      if env.fault w.steps then (err database, tick w) else close_tx env w.db (body (tick w))

abbrev pub emit : Event → M (Unit {0})
emit e w = (ok tt, record w { events = w.events ++ e ∷ [] })

abbrev pub inc_enqueued : M (Unit {0})
inc_enqueued w =
    (ok tt, record w { metrics = record (w.metrics) { enqueued = w.metrics.enqueued + 1 } })

abbrev pub inc_sent : M (Unit {0})
inc_sent w = (ok tt, record w { metrics = record (w.metrics) { sent = w.metrics.sent + 1 } })

abbrev pub inc_delivered : M (Unit {0})
inc_delivered w =
    (ok tt, record w { metrics = record (w.metrics) { delivered = w.metrics.delivered + 1 } })

abbrev pub inc_failed : M (Unit {0})
inc_failed w = (ok tt, record w { metrics = record (w.metrics) { failed = w.metrics.failed + 1 } })

abbrev pub inc_cancelled : M (Unit {0})
inc_cancelled w =
    (ok tt, record w { metrics = record (w.metrics) { cancelled = w.metrics.cancelled + 1 } })
