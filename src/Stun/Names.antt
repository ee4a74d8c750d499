-- ===== src/Stun/Names.antt =====
-- measurement_proxy/ministun.c: `stun_msg2str` and `stun_attr2str`, which name the codes of
-- ministun.h in the messages for stderr.
use Prim.Native.String.{String}
use matador.Base.{ℕ, ◌==◌, if◌then◌else◌}

pub stun_msg2str : ℕ → String
stun_msg2str msg =
    if msg == 0x0001
    then "Binding Request"
    else if msg == 0x0101
    then "Binding Response"
    else if msg == 0x0111
    then "Binding Error Response"
    else if msg == 0x0002
    then "Shared Secret Request"
    else if msg == 0x0102
    then "Shared Secret Response"
    else if msg == 0x0112
    then "Shared Secret Error Response"
    else "Non-RFC3489 Message"

pub stun_attr2str : ℕ → String
stun_attr2str msg =
    if msg == 0x0001
    then "Mapped Address"
    else if msg == 0x0002
    then "Response Address"
    else if msg == 0x0003
    then "Change Request"
    else if msg == 0x0004
    then "Source Address"
    else if msg == 0x0005
    then "Changed Address"
    else if msg == 0x0006
    then "Username"
    else if msg == 0x0007
    then "Password"
    else if msg == 0x0008
    then "Message Integrity"
    else if msg == 0x0009
    then "Error Code"
    else if msg == 0x000a
    then "Unknown Attributes"
    else if msg == 0x000b
    then "Reflected From"
    else "Non-RFC3489 Attribute"
