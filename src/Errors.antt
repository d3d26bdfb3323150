-- ===== src/Errors.antt =====
-- server/cawl_core/errors.py, with the other exceptions that the control plane and the store raise.
-- An exception is its class with the values its message is made of, so `str(e)` is the value itself.
use cawl.Prelude.{Text, ℕ}

pub data Error : Type 0 where
  -- NotFound: an environment, a grant (environment, principal), an exposure (environment, label)
  not_found : Text → Error
  not_shared no_exposure : Text → Text → Error
  -- QuotaExceeded (owner, quota), PermissionDenied (actor), InvalidName, NameConflict
  quota_exceeded : Text → ℕ → Error
  permission_denied : Text → Error
  invalid_name name_conflict : Text → Error
  -- ParamError (argument)
  param_error : Text → Error
  -- CawlError, by the place that raises it
  unknown_backend unconfigured_egress : Text → Error
  superseded failed_teardown no_address already_owner not_running not_stopped : Text → Error
  no_unique_id no_authority : Error
  invalid_port : ℕ → Error
  host_key_unreadable host_cert_rejected : Text → Error
  bring_up_failed stop_failed start_failed destroy_failed : Text → Error → Error
  -- what is written to a row: "teardown failed: e", "provisioning failed: e; teardown failed: c"
  teardown_failed : Error → Error
  provisioning_and_teardown_failed : Error → Error → Error
  -- ValueError, Django's DoesNotExist and IntegrityError
  value_error does_not_exist integrity_error : Text → Error
  -- an exception of code outside the repository, by a number that tells them apart
  outside : ℕ → Error
  -- AttributeError, of an item that is no text
  no_text : Error
  -- ConfigError, by the place in the template, and AttributeError or TypeError, of a value of YAML that
  -- has no entries or no items
  config_error : Text → Error
  no_mapping no_items : Error
  -- SshCaError
  signing_failed : Text → Error
  -- Django's ImproperlyConfigured, by the setting
  improperly_configured : Text → Error
