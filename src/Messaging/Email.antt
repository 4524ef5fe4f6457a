-- ===== src/Messaging/Email.antt =====
-- include/ra_common/messaging/email.hpp.
use ra_common_cpp.Base.{Option, none, some, Bytes, codes}
use ra_common_cpp.Std.Numbers.{ℤ, pos}

pub record Email : Type 0 where
  pub to : Option Bytes
  pub from : Option Bytes
  pub subject : Option Bytes
  pub message : Option Bytes
  pub email_id : Option ℤ
  pub message_type : Bytes
  pub flag : ℤ

unfoldable pub anonymous : Bytes → Bytes → Bytes → Email
anonymous to subject message = record {
  to = some to;
  from = none;
  subject = some subject;
  message = some message;
  email_id = none;
  message_type = codes "text/plain";
  flag = pos 0;
}
