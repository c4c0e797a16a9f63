-- ===== src/Genpolicy/Manifest/Scripts.antt =====
-- The shell commands of the manifest.
use policy_templates.Prelude.{Bytes, text, lines, [], ◌∷◌, ◌++◌}

unfoldable pub enclava_tools_init_command : Bytes
enclava_tools_init_command =
    text "cp /usr/local/bin/enclava-wait-exec /work/enclava-wait-exec && chmod 0555 "
    ++ (text "/work/enclava-wait-exec && install -d -m 02770 -o 0 -g 10001 "
        ++ (text "/run/enclava/containers && install -d -m 02770 -o 0 -g 10001 "
            ++ (text
                  "/run/enclava-logs && printf 'not-ready\\n' > /run/enclava/init-ready && chmod "
                ++ (text "0644 /run/enclava/init-ready"))))

unfoldable pub enclava_tools_init_command_no_logs : Bytes
enclava_tools_init_command_no_logs =
    text "cp /usr/local/bin/enclava-wait-exec /work/enclava-wait-exec && chmod 0555 "
    ++ (text "/work/enclava-wait-exec && install -d -m 02770 -o 0 -g 10001 "
        ++ (text "/run/enclava/containers && printf 'not-ready\\n' > /run/enclava/init-ready && "
            ++ (text "chmod 0644 /run/enclava/init-ready")))

unfoldable pub caddy_dns01_broker_tls_handoff_script : Bytes
caddy_dns01_broker_tls_handoff_script =
    lines (
      "trap 'exit 0' TERM INT" ∷ "i=0" ∷ "while [ \"$i\" -lt 300 ]; do"
      ∷ "  if [ -r '/run/enclava/caddy-runtime/certificates/tls.crt' ] && [ -r '/run/enclava/caddy-runtime/certificates/tls.key' ]; then break; fi"
      ∷ "  if [ \"$i\" = 0 ] || [ $((i % 10)) -eq 0 ]; then echo 'tenant-ingress waiting for TLS certificate handoff' >&2; fi"
      ∷ "  i=$((i + 1))" ∷ "  sleep 1" ∷ "done"
      ∷ "if [ ! -r '/run/enclava/caddy-runtime/certificates/tls.crt' ] || [ ! -r '/run/enclava/caddy-runtime/certificates/tls.key' ]; then echo 'tenant-ingress TLS certificate handoff missing or unreadable' >&2; exit 1; fi"
      ∷ "certstamp() { cksum '/run/enclava/caddy-runtime/certificates/tls.crt' 2>/dev/null || wc -c '/run/enclava/caddy-runtime/certificates/tls.crt' 2>/dev/null || echo none; }"
      ∷ "# The generated Caddyfile has `admin off`, so there is no reload API:"
      ∷ "# renewed certificates are picked up by restarting caddy when the"
      ∷ "# tls.crt checksum changes (checked once a minute, atomic handoff"
      ∷ "# writes keep the watched file complete)." ∷ "while true; do" ∷ "  rc=0"
      ∷ "  if /usr/bin/caddy validate --config /etc/caddy/Caddyfile; then"
      ∷ "    stamp=$(certstamp)" ∷ "    /usr/bin/caddy run --config /etc/caddy/Caddyfile &"
      ∷ "    caddy_pid=$!" ∷ "    ticks=0" ∷ "    while kill -0 \"$caddy_pid\" 2>/dev/null; do"
      ∷ "      ticks=$((ticks + 1))"
      ∷ "      if [ $((ticks % 60)) -eq 0 ] && [ \"$(certstamp)\" != \"$stamp\" ]; then"
      ∷ "        echo 'tenant-ingress TLS certificate changed; restarting caddy' >&2"
      ∷ "        kill \"$caddy_pid\" 2>/dev/null || true" ∷ "        n=0"
      ∷ "        while kill -0 \"$caddy_pid\" 2>/dev/null && [ \"$n\" -lt 30 ]; do n=$((n + 1)); sleep 1; done"
      ∷ "        kill -9 \"$caddy_pid\" 2>/dev/null || true" ∷ "        break" ∷ "      fi"
      ∷ "      sleep 1" ∷ "    done" ∷ "    wait \"$caddy_pid\" || rc=$?" ∷ "  else" ∷ "    rc=$?"
      ∷ "  fi" ∷ "  echo \"tenant-ingress caddy exited rc=$rc; restarting in 5s\" >&2" ∷ "  sleep 5"
      ∷ [])
    ++ text "done"
