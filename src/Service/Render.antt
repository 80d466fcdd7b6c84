-- ===== src/Service/Render.antt =====
-- internal/service/render.go: the definitions of the service for systemd and launchd.
use lan_nickname.Base.{
  ℕ, [], ◌∷◌, ◌++◌, ◌≢◌, Bytes, codes, is_empty, ◌==◌, if◌then◌else◌, All, All-append, arith,
}
use lan_nickname.Service.{Platform, StateOwner}
use lan_nickname.Text.Replace.{replace_all}

abbrev pub escaped_byte : ℕ → Bytes
escaped_byte c =
    if c == b'&'
    then codes "&amp;"
    else if c == b'\''
    then codes "&#39;"
    else if c == b'<'
    then codes "&lt;"
    else if c == b'>'
    then codes "&gt;"
    else if c == b'"'
    then codes "&#34;"
    else c ∷ []

-- `html.EscapeString`
unfoldable pub escape : Bytes → Bytes
escape [] = []
escape (c ∷ s) = escaped_byte c ++ escape s

-- `writePlistEnvironment`
unfoldable pub plist_environment : Bytes → Bytes → Bytes
unfolding escape
plist_environment key value =
    codes "    <key>"
    ++ (escape key ++ (codes "</key>\n    <string>" ++ (escape value ++ codes "</string>\n")))

unfoldable pub plist_variables : Bytes → StateOwner → Bytes
unfolding plist_environment
plist_variables state_dir owner =
    plist_environment (codes "LAN_NICK_STATE_DIR") state_dir
    ++ (if is_empty owner.uid
        then []
        else plist_environment (codes "LAN_NICK_STATE_UID") owner.uid
          ++ plist_environment (codes "LAN_NICK_STATE_GID") owner.gid)

abbrev pub launchd_label : Bytes
launchd_label = codes "dev.lan-nick.agent"

abbrev pub display_name : Bytes
display_name = codes "lan-nick LAN discovery"

unfoldable pub render_launchd : Bytes → Bytes → StateOwner → Bytes
unfolding escape plist_variables
render_launchd executable state_dir owner =
    codes "<?xml version=\"1.0\" encoding=\"UTF-8\"?>\n"
    ++ (codes
          "<!DOCTYPE plist PUBLIC \"-//Apple//DTD PLIST 1.0//EN\" \"http://www.apple.com/DTDs/PropertyList-1.0.dtd\">\n"
        ++ (codes "<plist version=\"1.0\">\n<dict>\n  <key>Label</key>\n  <string>"
            ++ (launchd_label
                ++ (codes "</string>\n  <key>ProgramArguments</key>\n  <array>\n    <string>"
                    ++ (escape executable
                        ++ (codes
                              "</string>\n    <string>serve</string>\n  </array>\n  <key>EnvironmentVariables</key>\n  <dict>\n"
                            ++ (plist_variables state_dir owner
                                ++ codes
                                    "  </dict>\n  <key>RunAtLoad</key>\n  <true/>\n  <key>KeepAlive</key>\n  <true/>\n  <key>ProcessType</key>\n  <string>Background</string>\n</dict>\n</plist>\n")))))))

-- `systemdQuote`
unfoldable pub systemd_quote : Platform → Bytes → Bytes
unfolding replace_all
systemd_quote P value = P.quote (replace_all value (codes "%") (codes "%%"))

abbrev pub systemd_variable : Platform → Bytes → Bytes
systemd_variable P text = codes "Environment=" ++ (systemd_quote P text ++ codes "\n")

unfoldable pub systemd_variables : Platform → Bytes → StateOwner → Bytes
unfolding systemd_quote
systemd_variables P state_dir owner =
    systemd_variable P (codes "LAN_NICK_STATE_DIR=" ++ state_dir)
    ++ (if is_empty owner.uid
        then []
        else systemd_variable P (codes "LAN_NICK_STATE_UID=" ++ owner.uid)
          ++ systemd_variable P (codes "LAN_NICK_STATE_GID=" ++ owner.gid))

unfoldable pub render_systemd : Platform → Bytes → Bytes → StateOwner → Bytes
unfolding systemd_quote systemd_variables
render_systemd P executable state_dir owner =
    codes "[Unit]\nDescription="
    ++ (display_name
        ++ (codes
              "\nWants=network-online.target\nAfter=network-online.target\n\n[Service]\nType=simple\nExecStart="
            ++ (systemd_quote P executable
                ++ (codes " serve\n"
                    ++ (systemd_variables P state_dir owner
                        ++ codes
                            "Restart=on-failure\nRestartSec=2s\n\n[Install]\nWantedBy=multi-user.target\n")))))

-- A byte that cannot end a text element.
abbrev pub IsInert : ℕ → Type 0
IsInert c = (c ≢ b'<') × (c ≢ b'>') × (c ≢ b'"') × (c ≢ b'\'')

escaped_byte-IsInert : (c : ℕ) → All IsInert (escaped_byte c)
escaped_byte-IsInert c = ground arith

-- Whatever the text, its escaped form holds no quotes and no angle brackets, so it cannot leave the element
-- of the definition in which it stands.
pub escape-IsInert : (s : Bytes) → All IsInert (escape s)
unfolding escape
escape-IsInert [] = tt
escape-IsInert (c ∷ s) =
    All-append IsInert (escaped_byte c) (escape s) (escaped_byte-IsInert c) (escape-IsInert s)
