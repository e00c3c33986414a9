-- ===== src/Process.antt =====
-- What every process of the network stands on: its database, its keys and their files, its
-- configuration, the JSON codecs of the messages, and HTTP.
pub mod Json
use kairos_p2p_engine.Base.{ℕ, ◌%◌, ◌≡◌, Bool, true, Option, [], Bytes, Result, ok, err}
use kairos_p2p_engine.Badger.{Badger}
use kairos_p2p_engine.Config.{Config}
use kairos_p2p_engine.Crypto.Library.{Primitives, FileSystem}
use kairos_p2p_engine.Crypto.{CryptoError, sign_message, check_signature}

pub record Process (D F : Type 0) : Type 0 where
  pub badger : Badger D
  pub fs : FileSystem F
  pub crypto : Primitives
  pub config : Config
  pub files : F

module _ {D F : Type 0} (self : Process D F) where
  -- crypto.SignMessage
  unfoldable pub sign : Bytes → Result CryptoError Bytes
  sign message = sign_message self.fs self.crypto self.config self.files message

  -- `signature, _ := crypto.SignMessage(…)`: nil when signing fails.
  unfoldable pub sign_or_nil : Bytes → Bytes
  sign_or_nil message = elim (sign message) [ ok s ↦ s | err e ↦ [] ]

  -- `check, _ := crypto.VerifySignature(…)`
  unfoldable pub check : Bytes → Bytes → Bytes → Bool
  check message signature public_key = check_signature self.crypto message signature public_key

-- The receiver accepts what the sender signs.
pub record Trusts {D F E G : Type 0} (receiver : Process D F) (sender : Process E G) : Type 0 where
  pub signs : (message : Bytes) → sign sender message ≡ ok (sign_or_nil sender message)
  pub accepts :
      (message : Bytes)
      → check receiver message (sign_or_nil sender message) sender.config.public_key ≡ true

-- `rand.Intn(n)`, where `r` is what the generator draws.
unfoldable pub rand_intn : ℕ → ℕ → ℕ
rand_intn r n = r % n

pub record Response : Type 0 where
  pub status : ℕ
  pub body : Bytes

-- The statuses of net/http that the handlers answer with.
abbrev pub status_ok : ℕ
status_ok = 200

abbrev pub bad_request : ℕ
bad_request = 400

abbrev pub not_found : ℕ
not_found = 404

abbrev pub method_not_allowed : ℕ
method_not_allowed = 405

abbrev pub internal_server_error : ℕ
internal_server_error = 500

abbrev pub unauthorized : ℕ
unauthorized = 401

-- `http.Error(w, "Unauthorized", http.StatusUnauthorized)`
abbrev pub unauthorized_response : Response
unauthorized_response = record { status = unauthorized; body = [] }

abbrev pub ok_response : Bytes → Response
ok_response body = record { status = status_ok; body = body }

-- `config.HttpClient.Post("http://<server><path>", …, body)` in a world `W` of other processes; no
-- response when the request fails.
abbrev pub Post : Type 0 → Type 0
Post W = W → Bytes → Bytes → Bytes → W × Option Response

-- The methods that the handlers know, and any other.
pub data Method : Type 0 where
  method_get method_post method_delete other_method : Method

-- A request in a world `W` of other processes: the server's address, the method, the path, the body.
abbrev pub Send : Type 0 → Type 0
Send W = W → Bytes → Method → Bytes → Bytes → W × Option Response

abbrev pub post_of : {W : Type 0} → Send W → Post W
post_of send w server path body = send w server method_post path body
