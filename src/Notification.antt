-- ===== src/Notification.antt =====
-- pkg/notification: the entities (pkg/notification/entities.go and pkg/portslib/portslib.go), the
-- errors and the contract of store/store.go. The children model the adapters and the service.
pub mod Sqlite
pub mod Postgres
pub mod Service
pub mod Handler
use pk_modules.Common.{ℕ, Option, none, some, List, Action, Result, ok, err, if◌then◌else◌}
use pk_modules.Common.Int.{ℤ}
use pk_modules.Common.Text.{Text, codes, is_blank}

-- The sentinels of the store, the required fields, what a channel reports with its name, and the
-- driver's errors.
pub data Error : Type 0 where
  nil_notification tenant_id_required user_id_required bad_severity : Error
  nil_subscription channel_required : Error
  marshal_failed : Error
  deliver : Text → Error → Error
  not_found duplicate : Error
  driver : Text → Error

-- `portslib.Notification`, whose data is a map from names to values of any kind
pub record Notification (V : Type 0) : Type 0 where
  pub id : Text
  pub tenant_id : Text
  pub user_id : Text
  pub title : Text
  pub body : Text
  pub category : Text
  pub severity : Text
  pub data_of : List (Text × V)
  pub emitted_at : ℕ

-- `store.Notification`, whose data is JSON
pub record Row : Type 0 where
  pub id : Text
  pub tenant_id : Text
  pub user_id : Text
  pub title : Text
  pub body : Text
  pub category : Text
  pub severity : Text
  pub data_text : Text
  pub read_at : Option ℕ
  pub emitted_at : ℕ

-- `Subscription` of the module and of its store
pub record Subscription : Type 0 where
  pub id : Text
  pub tenant_id : Text
  pub user_id : Text
  pub category : Text
  pub channel : Text
  pub created_at : ℕ

abbrev pub severity_info : Text
severity_info = codes "info"

abbrev pub severity_warning : Text
severity_warning = codes "warning"

abbrev pub severity_critical : Text
severity_critical = codes "critical"

abbrev pub channel_in_app : Text
channel_in_app = codes "in_app"

unfoldable pub validate_subscription : Option Subscription → Result Error (Unit {0})
validate_subscription none = err nil_subscription
validate_subscription (some s) =
    if is_blank s.tenant_id
    then err tenant_id_required
    else if is_blank s.user_id
    then err user_id_required
    else if is_blank s.channel
    then err channel_required
    else ok tt

-- `store.Store`. A call that reads the clock takes the reading first.
pub record Store (S : Type 0) : Type 0 where
  pub create : ℕ → Option Row → Action Error S (Unit {0})
  pub get_by_user : Text → Text → ℤ → ℤ → Action Error S (List Row)
  pub mark_read : ℕ → Text → Text → Text → ℕ → Action Error S (Unit {0})
  pub add_subscription : ℕ → Option Subscription → Action Error S (Unit {0})
  pub remove_subscription : Text → Text → Text → Action Error S (Unit {0})
  pub list_subscriptions : Text → Text → Action Error S (List Subscription)
