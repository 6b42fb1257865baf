-- ===== src/Launch/Copy.antt =====
-- The connection file that the user can copy out of the log.
use xeus_cpp.Base.{◌≡◌, refl, ◌∙◌, [], ◌∷◌, ◌++◌, codes, Bytes}
use xeus_cpp.Pattern.Runs.{All}
use xeus_cpp.Launch.{Configuration, connection_text}
use xeus_cpp.Launch.Fields.{
  lines, is_value, is_name, without, field, fields_in, fields, quoted, line_of, next, string_field,
  number_field, last_field,
}

-- None of the texts has a comma or the end of a line.
pub record IsPlain (config : Configuration) : Type 0 where
  pub transport : All is_value config.m_transport
  pub ip : All is_value config.m_ip
  pub control_port : All is_value config.m_control_port
  pub shell_port : All is_value config.m_shell_port
  pub stdin_port : All is_value config.m_stdin_port
  pub iopub_port : All is_value config.m_iopub_port
  pub hb_port : All is_value config.m_hb_port
  pub signature_scheme : All is_value config.m_signature_scheme
  pub key : All is_value config.m_key

-- What stands before the first field has none.
abbrev preface : Bytes
preface =
    codes
      "Starting xcpp kernel...\n\nIf you want to connect to this kernel from an other client, just copy and paste the following content inside of a `kernel.json` file. And then run for example:\n\n# jupyter console --existing kernel.json\n\nkernel.json\n```\n{\n"

fields-preface : (text : Bytes) → fields (preface ++ text) ≡ fields text
unfolding fields fields_in lines field without
fields-preface text = refl

-- The text from a field on.
module _ (config : Configuration) where
  abbrev from_key : Bytes
  from_key = line_of (codes "key") (b'"' ∷ config.m_key) (b'"' ∷ codes "\n}\n```\n")

  abbrev from_signature_scheme : Bytes
  from_signature_scheme =
      line_of (codes "signature_scheme") (b'"' ∷ config.m_signature_scheme) (b'"' ∷ next from_key)

  abbrev from_hb_port : Bytes
  from_hb_port = line_of (codes "hb_port") config.m_hb_port (next from_signature_scheme)

  abbrev from_iopub_port : Bytes
  from_iopub_port = line_of (codes "iopub_port") config.m_iopub_port (next from_hb_port)

  abbrev from_stdin_port : Bytes
  from_stdin_port = line_of (codes "stdin_port") config.m_stdin_port (next from_iopub_port)

  abbrev from_shell_port : Bytes
  from_shell_port = line_of (codes "shell_port") config.m_shell_port (next from_stdin_port)

  abbrev from_control_port : Bytes
  from_control_port = line_of (codes "control_port") config.m_control_port (next from_shell_port)

  abbrev from_ip : Bytes
  from_ip = line_of (codes "ip") (b'"' ∷ config.m_ip) (b'"' ∷ next from_control_port)

  abbrev from_transport : Bytes
  from_transport = line_of (codes "transport") (b'"' ∷ config.m_transport) (b'"' ∷ next from_ip)

-- The user who copies the text finds each field of the configuration in it, exactly once and in this order, with its
-- value, a string in quotes and a port as it is, and no other field; no text of the configuration has a comma or the end of
-- a line in it.
pub fields-connection_text :
    (config : Configuration)
    → IsPlain config
    → fields (connection_text config)
      ≡ (codes "transport", quoted config.m_transport)
        ∷ (codes "ip", quoted config.m_ip)
        ∷ (codes "control_port", config.m_control_port)
        ∷ (codes "shell_port", config.m_shell_port)
        ∷ (codes "stdin_port", config.m_stdin_port)
        ∷ (codes "iopub_port", config.m_iopub_port)
        ∷ (codes "hb_port", config.m_hb_port)
        ∷ (codes "signature_scheme", quoted config.m_signature_scheme)
        ∷ (codes "key", quoted config.m_key)
        ∷ []
unfolding connection_text is_value is_name
fields-connection_text config h =
    fields-preface (from_transport config)
    ∙ string_field (codes "transport") config.m_transport (from_ip config) refl h.transport (
        string_field (codes "ip") config.m_ip (from_control_port config) refl h.ip (
          number_field (codes "control_port") config.m_control_port (from_shell_port config) refl
            h.control_port
            (number_field (codes "shell_port") config.m_shell_port (from_stdin_port config) refl
              h.shell_port
              (number_field (codes "stdin_port") config.m_stdin_port (from_iopub_port config) refl
                h.stdin_port
                (number_field (codes "iopub_port") config.m_iopub_port (from_hb_port config) refl
                  h.iopub_port
                  (number_field (codes "hb_port") config.m_hb_port (from_signature_scheme config)
                    refl h.hb_port
                    (string_field (codes "signature_scheme") config.m_signature_scheme
                      (from_key config) refl h.signature_scheme
                      (last_field (codes "key") config.m_key refl h.key))))))))
