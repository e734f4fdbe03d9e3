-- ===== src/System/Users/Lines.antt =====
-- The lines that `chpasswd` reads on its input, one `name:password` each.
use text.Mathlib.TextLemmas.{append_assoc}
use nas_os.Common.{String, ◌<>◌, ◌≡◌}
use nas_os.System.Users.{chpasswd_input}

-- For every two names and passwords, the input for the first name with the password that is the
-- first password, a line break, the second name, a colon and the second password is the two inputs
-- one after the other: a password with a line break in it sets the password of any account.
pub password_with_line_break :
    (username password other password' : String)
    → chpasswd_input username (password <> ("\n" <> (other <> (":" <> password'))))
      ≡ chpasswd_input username password <> chpasswd_input other password'
unfolding chpasswd_input
password_with_line_break username password other password' = simp append_assoc
